-- ===== src/Desktop/Expand/Literal.antt =====
-- Tokens with no field code but `%%` stand for themselves.
use remote_app_start_my_linu.Prelude.{
  ℕ, Bytes, eq_bytes, contains_byte, true, false, ◌==◌, if◌then◌else◌, List, [], ◌∷◌, ◌++◌, Option,
  ◌≡◌, ◌≢◌, refl, sym, ◌∙◌, ap, arith, append_assoc, append-nil, map, Bool-cases, inl, inr, ==_iff,
}
use remote_app_start_my_linu.Desktop.Entry.{Entry}
use remote_app_start_my_linu.Desktop.Expand.{
  Fields, fields_of, write_code, expand_loop, is_ignored_code, kept, expand_token, expand_all,
  expand,
}

-- A text in which every percent sign is doubled.
abbrev pub escape_percent : Bytes → Bytes
escape_percent [] = []
escape_percent (c ∷ cs) =
    if c == b'%' then b'%' ∷ b'%' ∷ escape_percent cs else c ∷ escape_percent cs

expand_loop-plain :
    (f : Fields) (b : Bytes) (c : ℕ) (cs : Bytes)
    → c ≢ b'%'
    → expand_loop f b (c ∷ cs) ≡ expand_loop f (b ++ c ∷ []) cs
unfolding expand_loop
expand_loop-plain f b c [] h = refl
expand_loop-plain f b c (d ∷ cs) h = ground arith

expand_loop-percent :
    (f : Fields) (b cs : Bytes)
    → expand_loop f b (b'%' ∷ b'%' ∷ cs) ≡ expand_loop f (b ++ b'%' ∷ []) cs
unfolding expand_loop write_code
expand_loop-percent f b cs = refl

expand_loop-escape_percent :
    (f : Fields) (t b : Bytes) → expand_loop f b (escape_percent t) ≡ b ++ t
expand_loop-escape_percent f [] b = unfold expand_loop in sym (append-nil b)
expand_loop-escape_percent f (c ∷ t) b = elim (Bool-cases (c == b'%')) [
  | inl e ↦ rw e (
      expand_loop-percent f b _
      ∙ expand_loop-escape_percent f t _
      ∙ rw append_assoc (ap (λ x. b ++ x ∷ t) (sym ((==_iff c b'%').0 e))))
  | inr e ↦ rw e (
      expand_loop-plain f b c _ (ground arith) ∙ expand_loop-escape_percent f t _ ∙ rw append_assoc)
]

-- No escaped text is one of the two-byte codes.
escape_percent-no_code :
    (t : Bytes) (x : ℕ) → x ≢ b'%' → eq_bytes (escape_percent t) (b'%' ∷ x ∷ []) ≡ false
unfolding eq_bytes
escape_percent-no_code [] x h = refl
escape_percent-no_code (c ∷ t) x h = ground arith

contains_byte-escape_percent :
    (t : Bytes) → contains_byte b'%' (escape_percent t) ≡ contains_byte b'%' t
unfolding contains_byte
contains_byte-escape_percent [] = refl
contains_byte-escape_percent (c ∷ t) = ground (arith, contains_byte-escape_percent t)

escape_percent-none : (t : Bytes) → contains_byte b'%' t ≡ false → escape_percent t ≡ t
unfolding contains_byte
escape_percent-none [] h = refl
escape_percent-none (c ∷ t) h = ground (arith, escape_percent-none t)

kept-contains : (t : Bytes) → contains_byte b'%' t ≡ true → kept t ≡ t ∷ []
unfolding contains_byte
kept-contains [] h = cc
kept-contains (c ∷ t) h = refl

is_ignored_code-escape_percent : (t : Bytes) → is_ignored_code (escape_percent t) ≡ false
unfolding is_ignored_code
is_ignored_code-escape_percent t = ground (
  arith,
  escape_percent-no_code t b'k' (omega arith),
  escape_percent-no_code t b'v' (omega arith),
  escape_percent-no_code t b'm' (omega arith),
  escape_percent-no_code t b'd' (omega arith),
  escape_percent-no_code t b'D' (omega arith),
  escape_percent-no_code t b'n' (omega arith),
  escape_percent-no_code t b'N' (omega arith),
)

expand_token-escape_percent : (f : Fields) (t : Bytes) → expand_token f (escape_percent t) ≡ t ∷ []
unfolding expand_token
expand_token-escape_percent f t = ground (
  arith,
  escape_percent-no_code t b'F' (omega arith),
  escape_percent-no_code t b'U' (omega arith),
  escape_percent-no_code t b'f' (omega arith),
  escape_percent-no_code t b'u' (omega arith),
  escape_percent-no_code t b'i' (omega arith),
  escape_percent-no_code t b'c' (omega arith),
  is_ignored_code-escape_percent t,
  contains_byte-escape_percent t,
  escape_percent-none t,
  expand_loop-escape_percent f t [],
  kept-contains t,
)

expand_all-escape_percent :
    (f : Fields) (ts : List Bytes) → expand_all f (map escape_percent ts) ≡ ts
unfolding expand_all
expand_all-escape_percent f [] = refl
expand_all-escape_percent f (t ∷ ts) =
    rw (expand_token-escape_percent f t, expand_all-escape_percent f ts)

-- Tokens whose percent signs are doubled expand to the tokens with single percent signs, in order
-- and none dropped, whatever the entry and the files are.
pub expand-escape_percent :
    (ts : List Bytes) (entry : Option Entry) (files : List Bytes)
    → expand (map escape_percent ts) entry files ≡ ts
unfolding expand
expand-escape_percent ts entry files = expand_all-escape_percent (fields_of entry files) ts
