-- ===== src/Icons/Size/Forms.antt =====
-- The names of directories that are sizes.
use remote_app_start_my_linu.Prelude.{
  ℕ, ◌+◌, ◌*◌, ◌-◌, ◌^◌, ◌<◌, Bytes, true, false, ◌==◌, if◌then◌else◌, [], ◌∷◌, ◌++◌, none, some,
  pos, ◌≡◌, ◌≢◌, refl, ap, arith, Bool-cases, ◌∙◌, inl, inr, Option-cases,
}
use remote_app_start_my_linu.Icons.Size.{
  is_digit, digits_from, signed, unsigned, atoi, cut_byte, without_scale, before_cut, cut_size,
  positive_or_zero, pair_size, unscaled_size, parse_size_dir,
}

cut_byte_absent :
    (b : ℕ) (u s : Bytes) → cut_byte b u ≡ none → cut_byte b (u ++ (b ∷ s)) ≡ some (u, s)
unfolding cut_byte
cut_byte_absent b [] s h = ground arith
cut_byte_absent b (c ∷ cs) s h = elim (Option-cases (cut_byte b cs)) [
  | inl e ↦ rw (cut_byte_absent b cs s e) (ground arith)
  | inr (_, e) ↦ absurd (ground arith)
]

cut_byte_append :
    (b : ℕ) (u v : Bytes) → cut_byte b u ≡ none → cut_byte b v ≡ none → cut_byte b (u ++ v) ≡ none
unfolding cut_byte
cut_byte_append b [] v h k = k
cut_byte_append b (c ∷ cs) v h k = elim (Option-cases (cut_byte b cs)) [
  | inl e ↦ rw (cut_byte_append b cs v e k) (ground arith)
  | inr (_, e) ↦ absurd (ground arith)
]

-- A row of digits has none of the bytes that are looked for.
digits-cut_none :
    (b : ℕ) (n v : ℕ) (w : Bytes)
    → is_digit b ≡ false
    → digits_from n w ≡ some v
    → cut_byte b w ≡ none
unfolding cut_byte digits_from
digits-cut_none b n v [] d h = refl
digits-cut_none b n v (c ∷ cs) d h = elim (Bool-cases (is_digit c)) [
  | inl e ↦
      let r = digits-cut_none b (10 * n + (c - b'0')) v cs d (ground arith) in rw r (ground arith)
  | inr e ↦ absurd (ground arith)
]

-- A row of digits that is a positive int.
abbrev IsNumeral : Bytes → ℕ → Type 0
IsNumeral w n = (w ≢ []) × (digits_from 0 w ≡ some n) × (0 < n) × (n < 2 ^ 63)

digits_first : (m n c : ℕ) (cs : Bytes) → digits_from m (c ∷ cs) ≡ some n → is_digit c ≡ true
unfolding digits_from
digits_first m n c cs h = ground arith

atoi_numeral : (w : Bytes) (n : ℕ) → IsNumeral w n → atoi w ≡ some (pos n)
unfolding atoi unsigned signed
atoi_numeral [] n h = absurd (h.0 refl)
atoi_numeral (c ∷ cs) n (_, d, p, m) =
    let f = digits_first 0 n c cs d in
    let minus : (c == b'-') ≡ false = ground arith in
    let plus : (c == b'+') ≡ false = ground arith in rw (minus, plus, d) (ground arith)

unscaled_numeral : (w : Bytes) (n : ℕ) → IsNumeral w n → unscaled_size w ≡ pos n
unfolding unscaled_size cut_size positive_or_zero
unscaled_numeral w n h =
    ap (cut_size w) (digits-cut_none b'x' 0 n w refl h.1)
    ∙ (ap positive_or_zero (atoi_numeral w n h) ∙ ground arith)

unscaled_pair :
    (v w : Bytes) (m n : ℕ)
    → IsNumeral v m
    → IsNumeral w n
    → unscaled_size (v ++ (b'x' ∷ w)) ≡ (if n == m then pos m else pos 0)
unfolding unscaled_size cut_size pair_size
unscaled_pair [] w m n g h = absurd (g.0 refl)
unscaled_pair (c ∷ cs) w m n g h =
    ap (cut_size ((c ∷ cs) ++ (b'x' ∷ w)))
      (cut_byte_absent b'x' (c ∷ cs) w (digits-cut_none b'x' 0 m (c ∷ cs) refl g.1))
    ∙ (ap (λ a. pair_size a (atoi w)) (atoi_numeral (c ∷ cs) m g)
        ∙ (ap (pair_size (some (pos m))) (atoi_numeral w n h) ∙ ground arith))

-- A scale behind a name is passed over.
parse_scaled :
    (u s : Bytes)
    → cut_byte b'@' u ≡ none
    → (parse_size_dir u ≡ unscaled_size u) × (parse_size_dir (u ++ (b'@' ∷ s)) ≡ unscaled_size u)
unfolding parse_size_dir without_scale
parse_scaled u s h = (
  ap (λ o. unscaled_size (before_cut u o)) h,
  ap (λ o. unscaled_size (before_cut (u ++ (b'@' ∷ s)) o)) (cut_byte_absent b'@' u s h),
)

cut_none_x : cut_byte b'@' (b'x' ∷ []) ≡ none
unfolding cut_byte
cut_none_x = refl

pair-cut_none :
    (v w : Bytes) (m n : ℕ) → IsNumeral v m → IsNumeral w n → cut_byte b'@' (v ++ (b'x' ∷ w)) ≡ none
pair-cut_none v w m n g h =
    cut_byte_append b'@' v (b'x' ∷ w) (digits-cut_none b'@' 0 m v refl g.1)
      (cut_byte_append b'@' (b'x' ∷ []) w (cut_none_x) (digits-cut_none b'@' 0 n w refl h.1))

-- For decimal numerals v and w of positive ints m and n, and any scale s: the directory names "v"
-- and "v@s" are the size m; the names "vxw" and "vxw@s" are the size m where n is m, and no size
-- (0) where it is not.
parse_size_dir_numerals :
    (v w s : Bytes) (m n : ℕ)
    → IsNumeral v m
    → IsNumeral w n
    → (parse_size_dir v ≡ pos m)
      × (parse_size_dir (v ++ (b'@' ∷ s)) ≡ pos m)
      × (parse_size_dir (v ++ (b'x' ∷ w)) ≡ (if n == m then pos m else pos 0))
      × (parse_size_dir ((v ++ (b'x' ∷ w)) ++ (b'@' ∷ s)) ≡ (if n == m then pos m else pos 0))
parse_size_dir_numerals v w s m n g h =
    let one = parse_scaled v s (digits-cut_none b'@' 0 m v refl g.1) in
    let two = parse_scaled (v ++ (b'x' ∷ w)) s (pair-cut_none v w m n g h) in
    let single = unscaled_numeral v m g in
    let both = unscaled_pair v w m n g h in
    (one.0 ∙ single, one.1 ∙ single, two.0 ∙ both, two.1 ∙ both)
