-- ===== src/Desktop/Exec.antt =====
-- server/internal/desktop/exec.go, `SplitExec`: an Exec line is split into tokens. The index `i` of
-- the Go loop is `pos`; the loop walks the bytes that are left.
pub mod RoundTrip
pub mod Errors
use remote_app_start_my_linu.Prelude.{
  ℕ, ◌+◌, Bytes, Bool, true, false, ◌||◌, ◌==◌, if◌then◌else◌, List, [], ◌∷◌, ◌++◌, Option, none,
  some, Result, ok, err,
}

-- `ErrUnterminatedQuote` and `ErrInvalidEscape`, each with the position that the message names.
pub data SplitError : Type 0 where
  unterminated_quote invalid_escape : ℕ → SplitError

pub record Splitter : Type 0 where
  pub result : List Bytes
  pub cur : Bytes
  pub in_quote : Bool
  pub in_token : Bool

unfoldable pub flush : Splitter → Splitter
flush s =
    if s.in_token
    then record s { result = s.result ++ s.cur ∷ []; cur = []; in_token = false }
    else s

-- A byte that is no backslash, inside and outside quotes.
unfoldable pub split_byte : Splitter → ℕ → Splitter
unfolding flush
split_byte s c =
    if s.in_quote
    then (if c == b'"' then record s { in_quote = false } else record s { cur = s.cur ++ c ∷ [] })
    else if c == b' ' || c == b'\t'
    then flush s
    else if c == b'"'
    then record s { in_quote = true; in_token = true }
    else record s { cur = s.cur ++ c ∷ []; in_token = true }

-- The byte behind a backslash; `none` where the escape is invalid.
unfoldable pub split_escape : Splitter → ℕ → Option Splitter
split_escape s next =
    if s.in_quote
    then (if next == b'\\' || next == b'"' || next == b'`' || next == b'$'
        then some (record s { cur = s.cur ++ next ∷ [] })
        else none)
    else if next == b'\\'
    then some (record s { cur = s.cur ++ b'\\' ∷ []; in_token = true })
    else none

unfoldable pub split_loop : ℕ → Splitter → Bytes → Result SplitError (List Bytes)
split_loop pos s [] = if s.in_quote then err (unterminated_quote pos) else ok (flush s).result
split_loop pos s (c ∷ []) =
    let rest = split_loop (pos + 1) (split_byte s c) [] in
    if c == b'\\' then err (invalid_escape pos) else rest
split_loop pos s (c ∷ next ∷ cs) =
    let escaped : Result SplitError (List Bytes) = elim (split_escape s next) [
      | none ↦ err (invalid_escape pos)
      | some t ↦ split_loop (pos + 2) t cs
    ] in
    let rest = split_loop (pos + 1) (split_byte s c) (next ∷ cs) in
    if c == b'\\' then escaped else rest

abbrev pub initial : Splitter
initial = record { result = []; cur = []; in_quote = false; in_token = false }

unfoldable pub split_exec : Bytes → Result SplitError (List Bytes)
unfolding split_loop flush split_byte split_escape
split_exec = split_loop 0 initial
