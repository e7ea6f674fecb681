-- ===== src/Desktop/Lines.antt =====
-- What `bufio.Scanner` with `ScanLines` hands to the parsers of server/internal/desktop/parse.go and
-- server/internal/icons/theme_index.go, and the byte searches that they share.
use remote_app_start_my_linu.Prelude.{
  ℕ, ◌^◌, Bytes, has_prefix, drop, Bool, true, false, ◌==◌, ltb, if◌then◌else◌, List, [], ◌∷◌, ◌++◌,
  Option, none, some, length,
}

-- A reader: the bytes that it yields, and whether it then fails instead of reporting the end.
pub record Reader : Type 0 where
  pub content : Bytes
  pub fails : Bool

-- `maxLineSize`
abbrev max_line_size : ℕ
max_line_size = 2 ^ 20

-- The pieces between newlines; a last piece that is empty is no line.
unfoldable raw_lines : Bytes → Bytes → List Bytes
raw_lines [] [] = []
raw_lines (c ∷ cur) [] = (c ∷ cur) ∷ []
raw_lines cur (c ∷ cs) =
    let ended = cur ∷ raw_lines [] cs in
    let longer = raw_lines (cur ++ c ∷ []) cs in if c == b'\n' then ended else longer

-- `dropCR`
unfoldable drop_cr : Bytes → Bytes
drop_cr [] = []
drop_cr (c ∷ []) = if c == b'\r' then [] else c ∷ []
drop_cr (c ∷ d ∷ cs) = c ∷ drop_cr (d ∷ cs)

-- The lines up to the first that does not fit the buffer, and whether there is such a one.
unfoldable fitting : List Bytes → List Bytes
unfolding drop_cr
fitting [] = []
fitting (l ∷ ls) = if ltb (length l) max_line_size then drop_cr l ∷ fitting ls else []

unfoldable too_long : List Bytes → Bool
too_long [] = false
too_long (l ∷ ls) = if ltb (length l) max_line_size then too_long ls else true

unfoldable pub scan_lines : Reader → List Bytes
unfolding raw_lines fitting
scan_lines r = fitting (raw_lines [] r.content)

-- `scanner.Err() != nil`
unfoldable pub scan_failed : Reader → Bool
unfolding raw_lines too_long
scan_failed r = if too_long (raw_lines [] r.content) then true else r.fails

-- `strings.TrimPrefix(line, "\uFEFF")` on the first line.
abbrev byte_order_mark : Bytes
byte_order_mark = 0xEF ∷ 0xBB ∷ 0xBF ∷ []

unfoldable pub strip_mark : ℕ → Bytes → Bytes
strip_mark line_num line =
    if line_num == 1 then (if has_prefix line byte_order_mark then drop 3 line else line) else line

-- All but the last byte.
unfoldable init_bytes : Bytes → Bytes
init_bytes [] = []
init_bytes (c ∷ []) = []
init_bytes (c ∷ d ∷ cs) = c ∷ init_bytes (d ∷ cs)

unfoldable ends_with : ℕ → Bytes → Bool
ends_with b [] = false
ends_with b (c ∷ []) = c == b
ends_with b (c ∷ d ∷ cs) = ends_with b (d ∷ cs)

-- `[name]`: the text between the brackets.
unfoldable pub header_name : Bytes → Option Bytes
unfolding init_bytes ends_with
header_name [] = none
header_name (c ∷ cs) =
    if c == b'[' then (if ends_with b']' (c ∷ cs) then some (init_bytes cs) else none) else none

-- The parts before and behind the first `=`.
unfoldable pub cut_equals : Bytes → Option (Bytes × Bytes)
cut_equals [] = none
cut_equals (c ∷ cs) =
    if c == b'='
    then some ([], cs)
    else (elim (cut_equals cs) [ none ↦ none | some (k, v) ↦ some (c ∷ k, v) ])

-- A line with nothing on it, or a comment.
unfoldable pub is_blank_line : Bytes → Bool
is_blank_line [] = true
is_blank_line (c ∷ cs) = c == b'#'
