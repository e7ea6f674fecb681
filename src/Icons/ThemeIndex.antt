-- ===== src/Icons/ThemeIndex.antt =====
-- server/internal/icons/theme_index.go: the [Icon Theme] section of an index.theme file.
use remote_app_start_my_linu.Prelude.{
  ℕ, ◌+◌, Bytes, codes, eq_bytes, trim_space, contains_byte, is_empty, Bool, false, ◌||◌,
  if◌then◌else◌, List, [], ◌∷◌, none, some, Result, ok, err, ◌>>=◌,
}
use remote_app_start_my_linu.Desktop.Lines.{
  Reader, scan_lines, scan_failed, strip_mark, header_name, cut_equals, is_blank_line,
}
use remote_app_start_my_linu.Desktop.Scan.{split_on}

pub record ThemeIndex : Type 0 where
  pub name : Bytes
  pub inherits : List Bytes

pub data ThemeError : Type 0 where
  index_not_found open_failed read_failed missing_section missing_name : ThemeError
  missing_separator empty_key : ℕ → ThemeError

-- What `os.Open` of an index.theme file yields.
pub data IndexFile : Type 0 where
  absent unopenable : IndexFile
  opened : Reader → IndexFile

abbrev icon_theme_section : Bytes
icon_theme_section = codes "Icon Theme"

pub record ThemeParser : Type 0 where
  pub index : ThemeIndex
  pub line_num : ℕ
  pub current_section : Bytes
  pub seen_icon_section : Bool

abbrev pub initial : ThemeParser
initial = record {
  index = record { name = []; inherits = [] };
  line_num = 0;
  current_section = [];
  seen_icon_section = false;
}

-- The items of a list that are not empty once trimmed.
unfoldable trim_items : List Bytes → List Bytes
trim_items [] = []
trim_items (p ∷ ps) =
    if is_empty (trim_space p) then trim_items ps else trim_space p ∷ trim_items ps

unfoldable split_inherits_list : Bytes → List Bytes
unfolding trim_items
split_inherits_list value = if is_empty value then [] else trim_items (split_on b',' [] value)

unfoldable pub assign_theme_key : ThemeIndex → Bytes → Bytes → ThemeIndex
unfolding split_inherits_list
assign_theme_key x key value =
    if eq_bytes key (codes "Name")
    then record x { name = value }
    else if eq_bytes key (codes "Inherits")
    then record x { inherits = split_inherits_list value }
    else x

-- A line `key=value` of the section, both trimmed.
unfoldable theme_pair : ThemeParser → Bytes → Bytes → Result ThemeError ThemeParser
theme_pair p key value =
    if is_empty key
    then err (empty_key p.line_num)
    else if contains_byte b'[' key
    then ok p
    else ok (record p { index = assign_theme_key p.index key value })

-- A line that is no comment and no header.
unfoldable theme_key : ThemeParser → Bytes → Result ThemeError ThemeParser
unfolding theme_pair
theme_key p line =
    if eq_bytes p.current_section icon_theme_section
    then elim (cut_equals line) [
      | none ↦ err (missing_separator p.line_num)
      | some (key, value) ↦ theme_pair p (trim_space key) (trim_space value)
    ]
    else ok p

unfoldable theme_text : ThemeParser → Bytes → Bytes → Result ThemeError ThemeParser
unfolding theme_key
theme_text p line trimmed = if is_blank_line trimmed then ok p else elim (header_name trimmed) [
  | some name ↦ ok (record p {
    current_section = name;
    seen_icon_section = eq_bytes name icon_theme_section || p.seen_icon_section;
  })
  | none ↦ theme_key p line
]

-- The body of the loop.
unfoldable theme_line : ThemeParser → Bytes → Result ThemeError ThemeParser
unfolding theme_text
theme_line p raw =
    let n = p.line_num + 1 in
    let line = strip_mark n raw in theme_text (record p { line_num = n }) line (trim_space line)

unfoldable theme_lines : ThemeParser → List Bytes → Result ThemeError ThemeParser
theme_lines p [] = ok p
theme_lines p (l ∷ ls) = do q ← theme_line p l; theme_lines q ls

-- The checks behind the loop.
unfoldable check_theme : Bool → ThemeParser → Result ThemeError ThemeIndex
check_theme failed p =
    if failed
    then err read_failed
    else if p.seen_icon_section
    then (if is_empty p.index.name then err missing_name else ok p.index)
    else err missing_section

-- `LoadThemeIndex`
unfoldable pub load_theme_index : IndexFile → Result ThemeError ThemeIndex
unfolding theme_lines theme_line check_theme
load_theme_index absent = err index_not_found
load_theme_index unopenable = err open_failed
load_theme_index (opened r) = do
  p ← theme_lines initial (scan_lines r)
  check_theme (scan_failed r) p
