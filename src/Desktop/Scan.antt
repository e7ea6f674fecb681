-- ===== src/Desktop/Scan.antt =====
-- server/internal/desktop/scanner.go: `DefaultPaths`, `dedupe`, `computeID` and `Scan`. A path below a root is
-- the list of the names that lead to it.
pub mod Shown
pub mod Priority
use mathlib.Core.List.{reverse}
use remote_app_start_my_linu.Prelude.{
  ℕ, ◌+◌, Bytes, codes, eq_bytes, has_prefix, drop, is_empty, Bool, true, false, not, ◌&&◌, ◌||◌,
  ◌==◌, leb, if◌then◌else◌, List, [], ◌∷◌, ◌++◌, Option, none, some, Result, ok, err, length,
}
use remote_app_start_my_linu.Prelude.Assoc.{insert, values}
use remote_app_start_my_linu.Prelude.Sort.{lt_bytes, sort_by, insert_by}
use remote_app_start_my_linu.Desktop.Entry.{Entry, type_application}
use remote_app_start_my_linu.Desktop.FileTree.{
  Node, file, dir, Nodes, nil, cons, Root, missing, stat_failed, not_dir, directory,
}
use remote_app_start_my_linu.Desktop.Lines.{Reader}
use remote_app_start_my_linu.Desktop.Parse.{ParseError, parse}

pub data Cause : Type 0 where
  cannot_stat cannot_read_dir cannot_open : Cause
  parse_failed : ParseError → Cause

pub record ScanError : Type 0 where
  pub root : Bytes
  pub path : List Bytes
  pub cause : Cause

unfoldable pub contains : Bytes → List Bytes → Bool
contains p [] = false
contains p (q ∷ qs) = eq_bytes q p || contains p qs

-- `dedupe`, also that of server/internal/icons/finder.go: `seen` and `out` hold the same paths.
unfoldable dedupe_onto : List Bytes → List Bytes → List Bytes
unfolding contains
dedupe_onto out [] = out
dedupe_onto out (p ∷ ps) = dedupe_onto (if contains p out then out else out ++ p ∷ []) ps

unfoldable pub dedupe : List Bytes → List Bytes
unfolding dedupe_onto
dedupe = dedupe_onto []

-- `strings.Split(s, sep)` for a separator of one byte.
unfoldable pub split_on : ℕ → Bytes → Bytes → List Bytes
split_on sep cur [] = cur ∷ []
split_on sep cur (c ∷ cs) =
    let next = cur ∷ split_on sep [] cs in
    let longer = split_on sep (cur ++ c ∷ []) cs in if c == sep then next else longer

-- The directories of a search path, the empty ones skipped, each joined with a name.
unfoldable pub search_dirs : (Bytes → Bytes → Bytes) → Bytes → List Bytes → List Bytes
search_dirs join name [] = []
search_dirs join name (d ∷ ds) =
    if is_empty d then search_dirs join name ds else join d name ∷ search_dirs join name ds

-- `DefaultPaths`: `join` is `filepath.Join`, an empty value stands for a variable that is not set.
unfoldable pub default_paths : (Bytes → Bytes → Bytes) → Bytes → Bytes → Bytes → List Bytes
unfolding dedupe split_on search_dirs
default_paths join data_dirs data_home home =
    let system = codes "/usr/share/applications" ∷ codes "/usr/local/share/applications" ∷ [] in
    let shared : List Bytes =
      if is_empty data_dirs
      then []
      else search_dirs join (codes "applications") (split_on b':' [] data_dirs) in
    let own : List Bytes =
      if not (is_empty data_home)
      then join data_home (codes "applications") ∷ []
      else if not (is_empty home)
      then join home (codes ".local/share/applications") ∷ []
      else [] in
    dedupe (system ++ (shared ++ own))

-- `filepath.Ext` of a name: from the last dot on.
unfoldable pub extension : Bytes → Bytes
extension [] = []
extension (c ∷ cs) = elim (extension cs) [ [] ↦ if c == b'.' then c ∷ cs else [] | d ∷ ds ↦ d ∷ ds ]

-- `strings.EqualFold(s, ".desktop")`: both cases of a letter, and the two other runes that fold to
-- a letter of this word.
unfoldable pub fold_case : Bytes → Bytes
fold_case [] = []
fold_case (a ∷ []) = (if leb b'A' a && leb a b'Z' then a + 32 else a) ∷ []
fold_case (a ∷ b ∷ []) =
    if a == 0xC5 && b == 0xBF
    then b's' ∷ []
    else (if leb b'A' a && leb a b'Z' then a + 32 else a) ∷ fold_case (b ∷ [])
fold_case (a ∷ b ∷ c ∷ cs) =
    let long_s = b's' ∷ fold_case (c ∷ cs) in
    let kelvin = b'k' ∷ fold_case cs in
    let other = (if leb b'A' a && leb a b'Z' then a + 32 else a) ∷ fold_case (b ∷ c ∷ cs) in
    if a == 0xC5 && b == 0xBF
    then long_s
    else if a == 0xE2 && b == 0x84 && c == 0xAA
    then kelvin
    else other

abbrev desktop_ext : Bytes
desktop_ext = codes ".desktop"

unfoldable pub is_desktop_file : Bytes → Bool
unfolding extension fold_case
is_desktop_file name = eq_bytes (fold_case (extension name)) desktop_ext

-- `strings.TrimSuffix`
unfoldable trim_suffix : Bytes → Bytes → Bytes
trim_suffix s suffix =
    if has_prefix (reverse s) (reverse suffix)
    then reverse (drop (length suffix) (reverse s))
    else s

unfoldable join_slash : List Bytes → Bytes
join_slash [] = []
join_slash (n ∷ []) = n
join_slash (n ∷ m ∷ ns) = n ++ (b'/' ∷ join_slash (m ∷ ns))

unfoldable replace_byte : ℕ → ℕ → Bytes → Bytes
replace_byte old new [] = []
replace_byte old new (c ∷ cs) = (if c == old then new else c) ∷ replace_byte old new cs

unfoldable pub compute_id : List Bytes → Bytes
unfolding trim_suffix join_slash replace_byte
compute_id rel = replace_byte b'/' b'-' (trim_suffix (join_slash rel) desktop_ext)

-- `byID` and `errs`.
pub record ScanState : Type 0 where
  pub by_id : List (Bytes × Entry)
  pub errs : List ScanError

unfoldable pub add_error : ScanState → Bytes → List Bytes → Cause → ScanState
add_error s root path cause = record s {
  errs = s.errs ++ record { root = root; path = path; cause = cause } ∷ [];
}

unfoldable pub parse_file : Option Reader → Result Cause Entry
parse_file none = err cannot_open
parse_file (some r) = elim (parse r) [ ok e ↦ ok e | err x ↦ err (parse_failed x) ]

-- The entries that the scan keeps.
unfoldable pub is_shown : Entry → Bool
is_shown e =
    if e.hidden || e.no_display
    then false
    else if not (eq_bytes e.type type_application)
    then false
    else true

-- The callback on a file.
unfoldable pub visit_file : Bytes → List Bytes → Bytes → Option Reader → ScanState → ScanState
visit_file root rel name reader s =
    if not (is_desktop_file name) then s else elim (parse_file reader) [
      | err cause ↦ add_error s root rel cause
      | ok entry ↦
          if is_shown entry
          then record s {
            by_id = insert (compute_id rel) (record entry { id = compute_id rel }) s.by_id;
          }
          else s
    ]

unfoldable mutual
  pub walk_node : Bytes → List Bytes → ScanState → Node → ScanState
  walk_node root rel s (file name reader) = visit_file root (rel ++ name ∷ []) name reader s
  walk_node root rel s (dir name true children) = walk_nodes root (rel ++ name ∷ []) s children
  walk_node root rel s (dir name false children) =
      add_error s root (rel ++ name ∷ []) cannot_read_dir

  pub walk_nodes : Bytes → List Bytes → ScanState → Nodes → ScanState
  walk_nodes root rel s nil = s
  walk_nodes root rel s (cons n ns) = walk_nodes root rel (walk_node root rel s n) ns

-- The body of the loop over the roots.
unfoldable pub scan_root : Bytes → ScanState → Root → ScanState
scan_root root s missing = s
scan_root root s stat_failed = add_error s root [] cannot_stat
scan_root root s not_dir = s
scan_root root s (directory true children) = walk_nodes root [] s children
scan_root root s (directory false children) = add_error s root [] cannot_read_dir

unfoldable pub scan_roots : (Bytes → Root) → ScanState → List Bytes → ScanState
scan_roots stat s [] = s
scan_roots stat s (root ∷ roots) = scan_roots stat (scan_root root s (stat root)) roots

abbrev pub less_id : Entry → Entry → Bool
less_id a b = lt_bytes a.id b.id

abbrev pub no_entries : ScanState
no_entries = record { by_id = []; errs = [] }

unfoldable pub scan : (Bytes → Root) → List Bytes → List Entry × List ScanError
unfolding scan_roots scan_root walk_nodes walk_node visit_file parse_file is_shown add_error
    is_desktop_file compute_id
scan stat paths =
    let s = scan_roots stat no_entries paths in (sort_by less_id (values s.by_id), s.errs)
