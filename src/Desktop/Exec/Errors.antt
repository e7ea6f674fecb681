-- ===== src/Desktop/Exec/Errors.antt =====
-- Where `SplitExec` fails, and with which position.
use remote_app_start_my_linu.Prelude.{
  ℕ, zero, suc, ◌+◌, Bytes, true, ◌==◌, List, [], ◌∷◌, Option, none, some, Result, err, ◌≡◌, arith,
  length, Bool-cases, Option-cases, inl, inr,
}
use remote_app_start_my_linu.Desktop.Exec.{
  SplitError, unterminated_quote, invalid_escape, Splitter, split_byte, split_escape, split_loop,
  initial, split_exec,
}

abbrev get_elem? : Bytes → ℕ → Option ℕ
get_elem? [] i = none
get_elem? (x ∷ xs) zero = some x
get_elem? (x ∷ xs) (suc i) = get_elem? xs i

-- What an error at `pos + i` says of the bytes that were left at `pos`.
abbrev pub Explains : ℕ → Bytes → SplitError → Type 0
Explains pos s (unterminated_quote p) = p ≡ pos + length s
Explains pos s (invalid_escape p) = (i : ℕ) × (p ≡ pos + i) × (get_elem? s i ≡ some b'\\')

Explains-cons :
    (pos c : ℕ) (s : Bytes) (e : SplitError) → Explains (pos + 1) s e → Explains pos (c ∷ s) e
Explains-cons pos c s (unterminated_quote p) h = omega arith
Explains-cons pos c s (invalid_escape p) (i, at, found) = (suc i, omega arith, found)

two_more : (pos : ℕ) → pos + 1 + 1 ≡ pos + 2
two_more pos = omega arith

at_backslash :
    (pos c : ℕ) (s : Bytes) (e : SplitError)
    → (c == b'\\') ≡ true
    → ◌≡◌ {A = Result SplitError (List Bytes)} (err (invalid_escape pos)) (err e)
    → Explains pos (c ∷ s) e
at_backslash pos c s (unterminated_quote p) slash h = absurd (ground arith)
at_backslash pos c s (invalid_escape p) slash h = (0, ground arith, ground arith)

split_loop-Explains :
    (s : Bytes) (pos : ℕ) (st : Splitter) (e : SplitError)
    → split_loop pos st s ≡ err e
    → Explains pos s e
unfolding split_loop
split_loop-Explains [] pos st (unterminated_quote p) h = ground arith
split_loop-Explains [] pos st (invalid_escape p) h = absurd (ground arith)
split_loop-Explains (c ∷ []) pos st e h = elim (Bool-cases (c == b'\\')) [
  | inl slash ↦ at_backslash pos c [] e slash (rw slash at h)
  | inr other ↦
      Explains-cons pos c [] e
        (split_loop-Explains [] (pos + 1) (split_byte st c) e (rw other at h))
]
split_loop-Explains (c ∷ d ∷ s) pos st e h = elim (Bool-cases (c == b'\\')) [
  | inl slash ↦ elim (Option-cases (split_escape st d)) [
    | inl bad ↦ at_backslash pos c (d ∷ s) e slash (rw (slash, bad) at h)
    | inr (t, good) ↦ Explains-cons pos c (d ∷ s) e (
        Explains-cons (pos + 1) d s e
          (rw (two_more pos) (split_loop-Explains s (pos + 2) t e (rw (slash, good) at h))))
  ]
  | inr other ↦
      Explains-cons pos c (d ∷ s) e
        (split_loop-Explains (d ∷ s) (pos + 1) (split_byte st c) e (rw other at h))
]

-- If `SplitExec` reports an unterminated quote, the position is the length of the line; if it
-- reports an invalid escape, a backslash stands at the position.
pub split_exec-Explains : (s : Bytes) (e : SplitError) → split_exec s ≡ err e → Explains 0 s e
unfolding split_exec
split_exec-Explains s e h = split_loop-Explains s 0 initial e h
