-- ===== src/Desktop/Text.antt =====
-- server/internal/desktop/parse.go, `parseBool`, `unescapeString` and `parseStringList`.
pub mod RoundTrip
use remote_app_start_my_linu.Prelude.{
  ℕ, Bytes, codes, eq_bytes, contains_byte, is_empty, Bool, true, false, not, ◌||◌, ◌==◌,
  if◌then◌else◌, List, [], ◌∷◌, ◌++◌, Option, none, some, Result, ok, err,
}

pub data ValueError : Type 0 where
  invalid_boolean trailing_backslash : ValueError
  invalid_escape : ℕ → ValueError

unfoldable pub parse_bool : Bytes → Result ValueError Bool
parse_bool s =
    if eq_bytes s (codes "true")
    then ok true
    else if eq_bytes s (codes "false")
    then ok false
    else err invalid_boolean

-- The byte that a backslash and `c` stand for in a string value.
unfoldable pub unescape_byte : ℕ → Option ℕ
unescape_byte c =
    if c == b'\\'
    then some b'\\'
    else if c == b's'
    then some b' '
    else if c == b'n'
    then some b'\n'
    else if c == b't'
    then some b'\t'
    else if c == b'r'
    then some b'\r'
    else none

unfoldable pub unescape_loop : Bytes → Bytes → Result ValueError Bytes
unescape_loop b [] = ok b
unescape_loop b (c ∷ []) = if not (c == b'\\') then ok (b ++ c ∷ []) else err trailing_backslash
unescape_loop b (c ∷ d ∷ cs) =
    let plain = unescape_loop (b ++ c ∷ []) (d ∷ cs) in
    let escaped : Result ValueError Bytes = elim (unescape_byte d) [
      | none ↦ err (invalid_escape d)
      | some e ↦ unescape_loop (b ++ e ∷ []) cs
    ] in
    if not (c == b'\\') then plain else escaped

unfoldable pub unescape_string : Bytes → Result ValueError Bytes
unfolding unescape_loop unescape_byte
unescape_string s = if not (contains_byte b'\\' s) then ok s else unescape_loop [] s

-- In a list a semicolon may be escaped too.
unfoldable pub unescape_item_byte : ℕ → Option ℕ
unescape_item_byte c =
    if c == b'\\'
    then some b'\\'
    else if c == b';'
    then some b';'
    else if c == b's'
    then some b' '
    else if c == b'n'
    then some b'\n'
    else if c == b't'
    then some b'\t'
    else if c == b'r'
    then some b'\r'
    else none

-- The last item counts only if it is not empty.
unfoldable pub finish_list : List Bytes → Bytes → List Bytes
finish_list result [] = result
finish_list result (c ∷ cur) = result ++ (c ∷ cur) ∷ []

unfoldable pub string_list_loop : List Bytes → Bytes → Bytes → Result ValueError (List Bytes)
string_list_loop result cur [] = ok (finish_list result cur)
string_list_loop result cur (c ∷ []) =
    if c == b'\\'
    then err trailing_backslash
    else if c == b';'
    then ok (finish_list (result ++ cur ∷ []) [])
    else ok (finish_list result (cur ++ c ∷ []))
string_list_loop result cur (c ∷ d ∷ cs) =
    let escaped : Result ValueError (List Bytes) = elim (unescape_item_byte d) [
      | none ↦ err (invalid_escape d)
      | some e ↦ string_list_loop result (cur ++ e ∷ []) cs
    ] in
    let next_item = string_list_loop (result ++ cur ∷ []) [] (d ∷ cs) in
    let plain = string_list_loop result (cur ++ c ∷ []) (d ∷ cs) in
    if c == b'\\' then escaped else if c == b';' then next_item else plain

unfoldable pub parse_string_list : Bytes → Result ValueError (List Bytes)
unfolding string_list_loop unescape_item_byte finish_list
parse_string_list s = if is_empty s then ok [] else string_list_loop [] [] s
