-- ===== src/Desktop/Tests.antt =====
-- The properties of the parsers of server/internal/desktop and of its scanner at concrete inputs.
use remote_app_start_my_linu.Prelude.{
  Bytes, codes, true, false, List, [], ◌∷◌, none, some, ok, err, ◌≡◌, refl, if◌then◌else◌, eq_bytes,
  trim_space, has_prefix, contains_byte,
}
use remote_app_start_my_linu.Desktop.Assign.{assign_key}
use remote_app_start_my_linu.Desktop.Entry.{Entry, empty_entry, type_application}
use remote_app_start_my_linu.Desktop.Exec.{split_exec, unterminated_quote}
use remote_app_start_my_linu.Desktop.Exec.RoundTrip.{quote_args, split_exec-quote_args}
use remote_app_start_my_linu.Desktop.Exec.Errors.{Explains, split_exec-Explains}
use remote_app_start_my_linu.Desktop.Text.{unescape_string, parse_string_list}
use remote_app_start_my_linu.Desktop.Text.RoundTrip.{escape_list, parse_string_list-escape_list}
use remote_app_start_my_linu.Desktop.Lines.{
  Reader, scan_lines, scan_failed, is_blank_line, strip_mark, header_name, cut_equals,
}
use remote_app_start_my_linu.Desktop.Parse.{Parser, initial, parse, parse_line}
use remote_app_start_my_linu.Desktop.FileTree.{file, dir, nil, cons, Root, missing, directory}
use remote_app_start_my_linu.Desktop.Scan.{scan}
use remote_app_start_my_linu.Desktop.Scan.Shown.{IsListing, scan-IsListing}
use remote_app_start_my_linu.Desktop.Scan.Priority.{find_id, last_entry, accepted, scan-last_entry}

abbrev arguments : List Bytes
arguments = codes "sh" ∷ [] ∷ codes "a \"b\" \\ `c` $d" ∷ []

split_exec-quote_args_example : split_exec (quote_args arguments) ≡ ok arguments
split_exec-quote_args_example = split_exec-quote_args arguments

open_quote : split_exec (codes "vi \"a") ≡ err (unterminated_quote 5)
unfolding split_exec
open_quote = refl

split_exec-Explains_example : Explains 0 (codes "vi \"a") (unterminated_quote 5)
split_exec-Explains_example = split_exec-Explains (codes "vi \"a") (unterminated_quote 5) open_quote

abbrev percents : List Bytes
percents = codes "100%" ∷ codes "%f" ∷ codes "plain" ∷ []

parse_string_list-escape_list_example :
    parse_string_list (escape_list (codes "a;b" ∷ [] ∷ codes "c\\" ∷ []))
    ≡ ok (codes "a;b" ∷ [] ∷ codes "c\\" ∷ [])
parse_string_list-escape_list_example =
    parse_string_list-escape_list (codes "a;b" ∷ [] ∷ codes "c\\" ∷ [])

abbrev vi_file : Reader
vi_file = record {
  content = codes "# vi\n[Desktop Entry]\nType=Application\nName=Vi\n[X]\nName=no\n";
  fails = false;
}

abbrev vi_entry : Entry
vi_entry = record empty_entry { name = codes "Vi"; type = type_application }

parse-vi_file : parse vi_file ≡ ok vi_entry
unfolding parse scan_lines is_blank_line trim_space strip_mark has_prefix header_name cut_equals
    eq_bytes contains_byte assign_key unescape_string scan_failed
parse-vi_file = refl

abbrev in_other_section : Parser
in_other_section = record initial { current_section = codes "X"; line_num = 4 }

abbrev one_line_on : Parser
one_line_on = record in_other_section { line_num = 5 }

parse_line-other : parse_line in_other_section (codes "Name=no") ≡ ok one_line_on
unfolding parse_line parse is_blank_line trim_space strip_mark header_name cut_equals eq_bytes
parse_line-other = refl

-- Two roots that hold an entry of the same id, one of them in a folder.
abbrev roots : Bytes → Root
roots root =
    if eq_bytes root (codes "a")
    then directory true
        (cons (dir (codes "x") true (cons (file (codes "vi.desktop") (some vi_file)) nil)) nil)
    else if eq_bytes root (codes "b")
    then directory true (cons (file (codes "x-vi.desktop") (some vi_file)) nil)
    else missing

scan-IsListing_example : IsListing (scan roots (codes "a" ∷ codes "b" ∷ codes "c" ∷ [])).0
scan-IsListing_example = scan-IsListing roots (codes "a" ∷ codes "b" ∷ codes "c" ∷ [])

scan-last_entry_example :
    find_id (codes "x-vi") (scan roots (codes "a" ∷ codes "b" ∷ codes "c" ∷ [])).0
    ≡ last_entry (codes "x-vi") (accepted roots (codes "a" ∷ codes "b" ∷ codes "c" ∷ [])) none
scan-last_entry_example =
    scan-last_entry roots (codes "a" ∷ codes "b" ∷ codes "c" ∷ []) (codes "x-vi")
