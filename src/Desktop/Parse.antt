-- ===== src/Desktop/Parse.antt =====
-- server/internal/desktop/parse.go, `Parse`: the loop over the lines and the checks behind it.
pub mod Valid
use remote_app_start_my_linu.Prelude.{
  ℕ, ◌+◌, Bytes, codes, eq_bytes, trim_space, contains_byte, is_empty, Bool, true, false, ◌||◌,
  if◌then◌else◌, List, [], ◌∷◌, Option, none, some, Result, ok, err, ◌>>=◌, map_err,
}
use remote_app_start_my_linu.Desktop.Assign.{assign_key}
use remote_app_start_my_linu.Desktop.Entry.{
  Entry, empty_entry, type_application, type_link, type_directory,
}
use remote_app_start_my_linu.Desktop.Lines.{
  Reader, scan_lines, scan_failed, strip_mark, header_name, cut_equals, is_blank_line,
}
use remote_app_start_my_linu.Desktop.Text.{ValueError}

-- The errors, with the line that the message names.
pub data ParseError : Type 0 where
  key_outside_section missing_separator empty_key : ℕ → ParseError
  bad_value : ℕ → Bytes → ValueError → ParseError
  read_failed missing_desktop_section missing_type : ParseError
  invalid_type : Bytes → ParseError

pub record Parser : Type 0 where
  pub entry : Entry
  pub line_num : ℕ
  pub current_section : Bytes
  pub seen_desktop_section : Bool

abbrev pub desktop_entry_section : Bytes
desktop_entry_section = codes "Desktop Entry"

-- A line `key=value`, both trimmed, in the section at hand.
unfoldable pub parse_pair : Parser → Bytes → Bytes → Result ParseError Parser
parse_pair p key value =
    if eq_bytes p.current_section desktop_entry_section
    then (if is_empty key
        then err (empty_key p.line_num)
        else if contains_byte b'[' key
        then ok p
        else do
          e ← map_err (bad_value p.line_num key) (assign_key p.entry key value)
          ok (record p { entry = e }))
    else ok p

-- A line that is no comment and no header.
unfoldable pub parse_key : Parser → Bytes → Result ParseError Parser
parse_key p line =
    if is_empty p.current_section
    then err (key_outside_section p.line_num)
    else elim (cut_equals line) [
      | none ↦ err (missing_separator p.line_num)
      | some (key, value) ↦ parse_pair p (trim_space key) (trim_space value)
    ]

unfoldable pub open_section : Parser → Bytes → Parser
open_section p name = record p {
  current_section = name;
  seen_desktop_section = eq_bytes name desktop_entry_section || p.seen_desktop_section;
}

unfoldable pub parse_text : Parser → Bytes → Bytes → Result ParseError Parser
parse_text p line trimmed = if is_blank_line trimmed then ok p else elim (header_name trimmed) [
  | some name ↦ ok (open_section p name)
  | none ↦ parse_key p line
]

-- The body of the loop.
unfoldable pub parse_line : Parser → Bytes → Result ParseError Parser
parse_line p raw =
    let n = p.line_num + 1 in
    let line = strip_mark n raw in parse_text (record p { line_num = n }) line (trim_space line)

unfoldable pub parse_lines : Parser → List Bytes → Result ParseError Parser
parse_lines p [] = ok p
parse_lines p (l ∷ ls) = do q ← parse_line p l; parse_lines q ls

-- The checks behind the loop.
unfoldable pub check_entry : Bool → Parser → Result ParseError Entry
check_entry failed p =
    if failed
    then err read_failed
    else if p.seen_desktop_section
    then (if is_empty p.entry.type
        then err missing_type
        else if eq_bytes p.entry.type type_application
            || eq_bytes p.entry.type type_link
            || eq_bytes p.entry.type type_directory
        then ok p.entry
        else err (invalid_type p.entry.type))
    else err missing_desktop_section

abbrev pub initial : Parser
initial = record {
  entry = empty_entry;
  line_num = 0;
  current_section = [];
  seen_desktop_section = false;
}

unfoldable pub parse : Reader → Result ParseError Entry
unfolding parse_lines parse_line parse_text parse_key parse_pair open_section check_entry
parse r = do p ← parse_lines initial (scan_lines r); check_entry (scan_failed r) p
