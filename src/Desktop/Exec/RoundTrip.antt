-- ===== src/Desktop/Exec/RoundTrip.antt =====
-- `SplitExec` against the quoting rules of the Desktop Entry specification.
use remote_app_start_my_linu.Prelude.{
  ℕ, ◌+◌, Bytes, Bool, true, false, ◌||◌, ◌==◌, if◌then◌else◌, List, [], ◌∷◌, ◌++◌, ok, ◌≡◌, ◌≢◌,
  refl, ◌∙◌, arith, append_assoc, append-nil, Bool-cases, inl, inr,
}
use remote_app_start_my_linu.Desktop.Exec.{
  Splitter, flush, split_byte, split_escape, split_loop, initial, split_exec,
}

-- The four bytes that a quoted argument escapes by a backslash.
abbrev needs_escape : ℕ → Bool
needs_escape c = c == b'\\' || c == b'"' || c == b'`' || c == b'$'

abbrev escape_quoted : Bytes → Bytes
escape_quoted [] = []
escape_quoted (c ∷ cs) =
    if needs_escape c then b'\\' ∷ c ∷ escape_quoted cs else c ∷ escape_quoted cs

-- An argument in double quotes.
abbrev quote_arg : Bytes → Bytes
quote_arg s = b'"' ∷ (escape_quoted s ++ b'"' ∷ [])

-- Arguments with one space in front of each.
abbrev pub quote_args : List Bytes → Bytes
quote_args [] = []
quote_args (a ∷ as') = b' ' ∷ (quote_arg a ++ quote_args as')

step_byte :
    (pos c : ℕ) (s : Splitter) (rest : Bytes)
    → c ≢ b'\\'
    → split_loop pos s (c ∷ rest) ≡ split_loop (pos + 1) (split_byte s c) rest
unfolding split_loop
step_byte pos c s [] h = ground arith
step_byte pos c s (d ∷ rest) h = ground arith

step_escape :
    (pos c : ℕ) (s : Splitter) (rest : Bytes)
    → s.in_quote ≡ true
    → needs_escape c ≡ true
    → split_loop pos s (b'\\' ∷ c ∷ rest)
      ≡ split_loop (pos + 2) (record s { cur = s.cur ++ c ∷ [] }) rest
unfolding split_loop split_escape
step_escape pos c s rest q h = ground arith

step_close :
    (pos : ℕ) (s : Splitter) (rest : Bytes)
    → s.in_quote ≡ true
    → split_loop pos s (b'"' ∷ rest) ≡ split_loop (pos + 1) (record s { in_quote = false }) rest
unfolding split_byte
step_close pos s rest q = ground (arith, step_byte pos b'"' s rest (omega arith))

step_plain :
    (pos c : ℕ) (s : Splitter) (rest : Bytes)
    → s.in_quote ≡ true
    → needs_escape c ≡ false
    → split_loop pos s (c ∷ rest) ≡ split_loop (pos + 1) (record s { cur = s.cur ++ c ∷ [] }) rest
unfolding split_byte
step_plain pos c s rest q h = ground (arith, step_byte pos c s rest)

-- Inside quotes an escaped text is read back byte for byte, up to the closing quote.
run_quoted :
    (t : Bytes) (pos : ℕ) (s : Splitter) (rest : Bytes)
    → s.in_quote ≡ true
    → (n : ℕ) × (split_loop pos s (escape_quoted t ++ b'"' ∷ rest)
        ≡ split_loop n (record s { cur = s.cur ++ t; in_quote = false }) rest)
run_quoted [] pos s rest q = (pos + 1, rw append-nil (step_close pos s rest q))
run_quoted (c ∷ t) pos s rest q = elim (Bool-cases (needs_escape c)) [
  | inl e ↦
      let (n, later) = run_quoted t (pos + 2) (record s { cur = s.cur ++ c ∷ [] }) rest q in
      (n, rw e (step_escape pos c s _ q e ∙ later ∙ rw append_assoc))
  | inr e ↦
      let (n, later) = run_quoted t (pos + 1) (record s { cur = s.cur ++ c ∷ [] }) rest q in
      (n, rw e (step_plain pos c s _ q e ∙ later ∙ rw append_assoc))
]

step_space :
    (pos : ℕ) (s : Splitter) (rest : Bytes)
    → s.in_quote ≡ false
    → split_loop pos s (b' ' ∷ rest) ≡ split_loop (pos + 1) (flush s) rest
unfolding split_byte
step_space pos s rest q = ground (arith, step_byte pos b' ' s rest (omega arith))

step_open :
    (pos : ℕ) (s : Splitter) (rest : Bytes)
    → s.in_quote ≡ false
    → split_loop pos s (b'"' ∷ rest)
      ≡ split_loop (pos + 1) (record s { in_quote = true; in_token = true }) rest
unfolding split_byte
step_open pos s rest q = ground (arith, step_byte pos b'"' s rest (omega arith))

-- Behind the tokens `done`, the token `cur` is open or, at the start, none is.
abbrev between : List Bytes → Bytes → Bool → Splitter
between done cur token = record { result = done; cur = cur; in_quote = false; in_token = token }

run_arg :
    (a : Bytes) (pos : ℕ) (done : List Bytes) (cur : Bytes) (rest : Bytes)
    → (n : ℕ) × (split_loop pos (between done cur true) (b' ' ∷ (quote_arg a ++ rest))
        ≡ split_loop n (between (done ++ cur ∷ []) a true) rest)
unfolding flush
run_arg a pos done cur rest =
    let open_quote = record (between (done ++ cur ∷ []) [] true) { in_quote = true } in
    let (n, later) = run_quoted a (pos + 1 + 1) open_quote rest refl in
    (n, step_space pos _ _ refl ∙ step_open (pos + 1) _ _ refl ∙ rw append_assoc later)

run_args :
    (as' : List Bytes) (pos : ℕ) (done : List Bytes) (cur : Bytes)
    → split_loop pos (between done cur true) (quote_args as') ≡ ok (done ++ cur ∷ as')
run_args [] pos done cur = unfold split_loop flush in refl
run_args (a ∷ as') pos done cur =
    let (n, first) = run_arg a pos done cur (quote_args as') in
    first ∙ run_args as' n (done ++ cur ∷ []) a ∙ rw append_assoc

run_first :
    (a : Bytes) (as' : List Bytes) → split_loop 0 initial (quote_args (a ∷ as')) ≡ ok (a ∷ as')
unfolding flush
run_first a as' =
    let open_quote = record (between [] [] true) { in_quote = true } in
    let (n, later) = run_quoted a 2 open_quote (quote_args as') refl in
    step_space 0 _ _ refl ∙ step_open 1 _ _ refl ∙ rw append_assoc later ∙ run_args as' n [] a

-- `SplitExec` of any list of arguments, each written in double quotes behind a space with its
-- backslashes, double quotes, backquotes and dollars escaped by a backslash, succeeds with exactly
-- these arguments, the empty ones included.
pub split_exec-quote_args : (args : List Bytes) → split_exec (quote_args args) ≡ ok args
unfolding split_exec
split_exec-quote_args [] = refl
split_exec-quote_args (a ∷ as') = run_first a as'
