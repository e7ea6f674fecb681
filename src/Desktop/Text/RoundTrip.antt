-- ===== src/Desktop/Text/RoundTrip.antt =====
-- The values of a desktop file against a writer that escapes them.
use remote_app_start_my_linu.Prelude.{
  ℕ, Bytes, contains_byte, false, ◌||◌, ◌==◌, if◌then◌else◌, List, [], ◌∷◌, ◌++◌, ok, ◌≡◌, ◌≢◌,
  refl, ◌∙◌, arith, append_assoc, append-nil,
}
use remote_app_start_my_linu.Desktop.Text.{
  unescape_byte, unescape_loop, unescape_string, unescape_item_byte, finish_list, string_list_loop,
  parse_string_list,
}

-- A writer for string values: backslash, newline, tab, return and space are escaped.
abbrev escape_value : Bytes → Bytes
escape_value [] = []
escape_value (c ∷ cs) =
    if c == b'\\'
    then b'\\' ∷ b'\\' ∷ escape_value cs
    else if c == b' '
    then b'\\' ∷ b's' ∷ escape_value cs
    else if c == b'\n'
    then b'\\' ∷ b'n' ∷ escape_value cs
    else if c == b'\t'
    then b'\\' ∷ b't' ∷ escape_value cs
    else if c == b'\r'
    then b'\\' ∷ b'r' ∷ escape_value cs
    else c ∷ escape_value cs

unescape_loop-plain :
    (b : Bytes) (c : ℕ) (cs : Bytes)
    → c ≢ b'\\'
    → unescape_loop b (c ∷ cs) ≡ unescape_loop (b ++ c ∷ []) cs
unfolding unescape_loop
unescape_loop-plain b c [] h = ground arith
unescape_loop-plain b c (d ∷ cs) h = ground arith

unescape_loop-escape_value : (t b : Bytes) → unescape_loop b (escape_value t) ≡ ok (b ++ t)
unfolding unescape_loop unescape_byte
unescape_loop-escape_value [] b = rw append-nil
unescape_loop-escape_value (c ∷ t) b = ground (
  arith,
  unescape_loop-plain b c (escape_value t),
  unescape_loop-escape_value t (b ++ c ∷ []),
  append_assoc b (c ∷ []) t,
)

contains_byte-escape_value :
    (t : Bytes) → contains_byte b'\\' (escape_value t) ≡ false → escape_value t ≡ t
unfolding contains_byte
contains_byte-escape_value [] h = refl
contains_byte-escape_value (c ∷ t) h = ground (arith, contains_byte-escape_value t)

-- Every string value that the writer escapes is read back by `unescapeString` byte for byte.
unescape_string-escape_value : (t : Bytes) → unescape_string (escape_value t) ≡ ok t
unfolding unescape_string
unescape_string-escape_value t =
    ground (arith, unescape_loop-escape_value t [], contains_byte-escape_value t)

-- A writer for list values: each item is escaped, its semicolons too, and ends in a semicolon.
abbrev escape_item : Bytes → Bytes
escape_item [] = []
escape_item (c ∷ cs) =
    if c == b'\\' || c == b';'
    then b'\\' ∷ c ∷ escape_item cs
    else if c == b' '
    then b'\\' ∷ b's' ∷ escape_item cs
    else if c == b'\n'
    then b'\\' ∷ b'n' ∷ escape_item cs
    else if c == b'\t'
    then b'\\' ∷ b't' ∷ escape_item cs
    else if c == b'\r'
    then b'\\' ∷ b'r' ∷ escape_item cs
    else c ∷ escape_item cs

abbrev pub escape_list : List Bytes → Bytes
escape_list [] = []
escape_list (t ∷ ts) = escape_item t ++ (b';' ∷ escape_list ts)

string_list_loop-plain :
    (result : List Bytes) (b : Bytes) (c : ℕ) (cs : Bytes)
    → c ≢ b'\\'
    → c ≢ b';'
    → string_list_loop result b (c ∷ cs) ≡ string_list_loop result (b ++ c ∷ []) cs
unfolding string_list_loop
string_list_loop-plain result b c [] h k = ground arith
string_list_loop-plain result b c (d ∷ cs) h k = ground arith

string_list_loop-semicolon :
    (result : List Bytes) (b cs : Bytes)
    → string_list_loop result b (b';' ∷ cs) ≡ string_list_loop (result ++ b ∷ []) [] cs
unfolding string_list_loop
string_list_loop-semicolon result b [] = refl
string_list_loop-semicolon result b (d ∷ cs) = refl

string_list_loop-escape_item :
    (t : Bytes) (result : List Bytes) (b rest : Bytes)
    → string_list_loop result b (escape_item t ++ rest) ≡ string_list_loop result (b ++ t) rest
unfolding string_list_loop unescape_item_byte
string_list_loop-escape_item [] result b rest = rw append-nil
string_list_loop-escape_item (c ∷ t) result b rest = ground (
  arith,
  string_list_loop-plain result b c (escape_item t ++ rest),
  string_list_loop-escape_item t result (b ++ c ∷ []) rest,
  append_assoc b (c ∷ []) t,
)

string_list_loop-escape_list :
    (ts result : List Bytes) → string_list_loop result [] (escape_list ts) ≡ ok (result ++ ts)
string_list_loop-escape_list [] result = unfold string_list_loop finish_list in rw append-nil
string_list_loop-escape_list (t ∷ ts) result =
    string_list_loop-escape_item t result [] _
    ∙ string_list_loop-semicolon result t _
    ∙ string_list_loop-escape_list ts (result ++ t ∷ [])
    ∙ rw append_assoc

-- Every list of items that the writer escapes is read back by `parseStringList` as it was, in
-- order and with the empty items.
pub parse_string_list-escape_list : (ts : List Bytes) → parse_string_list (escape_list ts) ≡ ok ts
unfolding parse_string_list
parse_string_list-escape_list ts = ground (arith, string_list_loop-escape_list ts [])
