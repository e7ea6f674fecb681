-- ===== src/Desktop/Parse/Valid.antt =====
-- What holds of every entry that `Parse` returns, and which lines change the entry.
use remote_app_start_my_linu.Prelude.{
  ◌+◌, Bytes, eq_bytes_iff, trim_space, Bool, List, [], ◌∷◌, Result, ok, err, bind-eq-ok, ◌≡◌, ◌≢◌,
  refl, arith, ◌⊎◌, inl, inr, Option-cases, Result-cases,
}
use remote_app_start_my_linu.Desktop.Assign.{assign_string, assign_bool, assign_list, assign_key}
use remote_app_start_my_linu.Desktop.Entry.{Entry, type_application, type_link, type_directory}
use remote_app_start_my_linu.Desktop.Lines.{Reader, scan_lines, scan_failed, strip_mark, cut_equals}
use remote_app_start_my_linu.Desktop.Parse.{
  ParseError, Parser, desktop_entry_section, parse_pair, parse_key, open_section, parse_text,
  parse_line, parse_lines, check_entry, initial, parse,
}
use remote_app_start_my_linu.Desktop.Text.{ValueError}

abbrev IdKept : Entry → Result ValueError Entry → Type 0
IdKept e (ok e') = e'.id ≡ e.id
IdKept e (err _) = Unit

assign_list-id : (e : Entry) (key value : Bytes) → IdKept e (assign_list e key value (ok e))
unfolding assign_list
assign_list-id e key value = ground arith

assign_bool-id :
    (e : Entry) (key value : Bytes) (other : Result ValueError Entry)
    → IdKept e other
    → IdKept e (assign_bool e key value other)
unfolding assign_bool
assign_bool-id e key value other h = ground arith

assign_string-id :
    (e : Entry) (key value : Bytes) (other : Result ValueError Entry)
    → IdKept e other
    → IdKept e (assign_string e key value other)
unfolding assign_string
assign_string-id e key value other h = ground arith

-- `assignKey` never touches the id.
assign_key-id : (e : Entry) (key value : Bytes) → IdKept e (assign_key e key value)
unfolding assign_key
assign_key-id e key value =
    assign_string-id e key value _ (assign_bool-id e key value _ (assign_list-id e key value))

abbrev NoId : Result ParseError Parser → Type 0
NoId (ok p) = p.entry.id ≡ []
NoId (err _) = Unit

parse_pair-NoId : (p : Parser) (key value : Bytes) → p.entry.id ≡ [] → NoId (parse_pair p key value)
unfolding parse_pair
parse_pair-NoId p key value h = ground (arith, assign_key-id p.entry key value)

parse_key-NoId : (p : Parser) (line : Bytes) → p.entry.id ≡ [] → NoId (parse_key p line)
unfolding parse_key
parse_key-NoId p line h = elim (Option-cases (cut_equals line)) [
  | inl e ↦ ground arith
  | inr ((k, v), e) ↦ ground (arith, parse_pair-NoId p (trim_space k) (trim_space v) h)
]

parse_line-NoId : (p : Parser) (line : Bytes) → p.entry.id ≡ [] → NoId (parse_line p line)
unfolding parse_line parse_text open_section
parse_line-NoId p line h =
    let n = p.line_num + 1 in
    ground (arith, parse_key-NoId (record p { line_num = n }) (strip_mark n line) h)

parse_lines-NoId : (ls : List Bytes) (p : Parser) → p.entry.id ≡ [] → NoId (parse_lines p ls)
unfolding parse_lines
parse_lines-NoId [] p h = h
parse_lines-NoId (l ∷ ls) p h = elim (Result-cases (parse_line p l)) [
  | inl (q, e) ↦ rw e (parse_lines-NoId ls q (rw e at (parse_line-NoId p l h)))
  | inr (x, e) ↦ rw e tt
]

-- What `Parse` promises of an entry: one of the three types, and no id yet.
record IsParsed (e : Entry) : Type 0 where
  pub known_type : (e.type ≡ type_application) ⊎ ((e.type ≡ type_link) ⊎ (e.type ≡ type_directory))
  pub no_id : e.id ≡ []

check_entry-IsParsed :
    (failed : Bool) (p : Parser) (e : Entry)
    → p.entry.id ≡ []
    → check_entry failed p ≡ ok e
    → IsParsed e
unfolding check_entry
check_entry-IsParsed failed p e i h = record {
  known_type = ground (
    arith,
    eq_bytes_iff p.entry.type type_application,
    eq_bytes_iff p.entry.type type_link,
    eq_bytes_iff p.entry.type type_directory,
  );
  no_id = ground arith;
}

-- If `Parse` returns an entry, its type is Application, Link or Directory and its id is empty.
parse-IsParsed : (r : Reader) (e : Entry) → parse r ≡ ok e → IsParsed e
unfolding parse
parse-IsParsed r e h =
    let (p, lines, checked) = bind-eq-ok (parse_lines initial (scan_lines r)) _ h in
    check_entry-IsParsed (scan_failed r) p e
      (rw lines at (parse_lines-NoId (scan_lines r) initial refl)) checked

abbrev Foreign : Entry → Result ParseError Parser → Type 0
Foreign e (ok q) = q.entry ≡ e
Foreign e (err _) = Unit

parse_pair-Foreign :
    (p : Parser) (key value : Bytes)
    → p.current_section ≢ desktop_entry_section
    → parse_pair p key value ≡ ok p
unfolding parse_pair
parse_pair-Foreign p key value h =
    ground (arith, eq_bytes_iff p.current_section desktop_entry_section)

parse_key-Foreign :
    (p : Parser) (line : Bytes)
    → p.current_section ≢ desktop_entry_section
    → Foreign p.entry (parse_key p line)
unfolding parse_key
parse_key-Foreign p line h = elim (Option-cases (cut_equals line)) [
  | inl e ↦ ground arith
  | inr ((k, v), e) ↦ ground (arith, parse_pair-Foreign p (trim_space k) (trim_space v) h)
]

-- In any other section than [Desktop Entry] a line that is accepted leaves the entry as it was.
parse_line-Foreign :
    (p q : Parser) (line : Bytes)
    → p.current_section ≢ desktop_entry_section
    → parse_line p line ≡ ok q
    → q.entry ≡ p.entry
unfolding parse_line parse_text open_section
parse_line-Foreign p q line h e =
    let n = p.line_num + 1 in
    ground (arith, parse_key-Foreign (record p { line_num = n }) (strip_mark n line) h)
