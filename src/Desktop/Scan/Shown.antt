-- ===== src/Desktop/Scan/Shown.antt =====
-- What `Scan` returns: only applications that are shown, sorted by their ids.
use remote_app_start_my_linu.Prelude.{
  Bytes, eq_bytes_iff, true, false, List, [], ◌∷◌, Option, none, ◌≡◌, ◌≢◌, sym, subst, arith,
  Bool-cases, Result-cases, inl, inr, All,
}
use remote_app_start_my_linu.Prelude.Assoc.{insert, lookup, values}
use remote_app_start_my_linu.Prelude.Assoc.Distinct.{
  Distinct, insert-Distinct, AllPairs, insert-AllPairs,
}
use remote_app_start_my_linu.Prelude.Sort.{
  lt_bytes, lt_bytes_trans, lt_bytes_total, sort_by, insert_by,
}
use remote_app_start_my_linu.Desktop.Entry.{Entry, type_application}
use remote_app_start_my_linu.Desktop.FileTree.{
  Node, file, dir, Nodes, nil, cons, Root, stat_failed, directory,
}
use remote_app_start_my_linu.Desktop.Lines.{Reader}
use remote_app_start_my_linu.Desktop.Scan.{
  ScanState, add_error, compute_id, parse_file, is_shown, visit_file, walk_node, walk_nodes,
  scan_root, scan_roots, less_id, no_entries, scan,
}

-- An entry that the phone may see, under its id.
pub record IsShown (k : Bytes) (e : Entry) : Type 0 where
  pub own_id : e.id ≡ k
  pub not_hidden : e.hidden ≡ false
  pub displayed : e.no_display ≡ false
  pub application : e.type ≡ type_application

pub record IsValid (s : ScanState) : Type 0 where
  pub distinct : Distinct s.by_id
  pub shown : AllPairs IsShown s.by_id

is_shown-IsShown : (k : Bytes) (e : Entry) → is_shown e ≡ true → IsShown k (record e { id = k })
unfolding is_shown
is_shown-IsShown k e h = ground (arith, eq_bytes_iff e.type type_application)

keep-IsValid :
    (s : ScanState) (k : Bytes) (e : Entry)
    → is_shown e ≡ true
    → IsValid s
    → IsValid (record s { by_id = insert k (record e { id = k }) s.by_id })
keep-IsValid s k e h v = record {
  distinct = insert-Distinct k _ s.by_id v.distinct;
  shown = insert-AllPairs IsShown k _ s.by_id (is_shown-IsShown k e h) v.shown;
}

visit_file-IsValid :
    (root : Bytes) (rel : List Bytes) (name : Bytes) (r : Option Reader) (s : ScanState)
    → IsValid s
    → IsValid (visit_file root rel name r s)
unfolding visit_file add_error
visit_file-IsValid root rel name r s v = elim (Result-cases (parse_file r)) [
  | inr (c, e) ↦ ground arith
  | inl (entry, e) ↦ elim (Bool-cases (is_shown entry)) [
    | inl h ↦ ground (arith, keep-IsValid s (compute_id rel) entry h v)
    | inr h ↦ ground arith
  ]
]

mutual
  unfolding walk_node walk_nodes add_error

  walk_node-IsValid :
      (n : Node) (root : Bytes) (rel : List Bytes) (s : ScanState)
      → IsValid s
      → IsValid (walk_node root rel s n)
  walk_node-IsValid (file name r) root rel s v = visit_file-IsValid root _ name r s v
  walk_node-IsValid (dir name true ns) root rel s v = walk_nodes-IsValid ns root _ s v
  walk_node-IsValid (dir name false ns) root rel s v = record {
    distinct = v.distinct;
    shown = v.shown;
  }

  walk_nodes-IsValid :
      (ns : Nodes) (root : Bytes) (rel : List Bytes) (s : ScanState)
      → IsValid s
      → IsValid (walk_nodes root rel s ns)
  walk_nodes-IsValid nil root rel s v = v
  walk_nodes-IsValid (cons n ns) root rel s v =
      walk_nodes-IsValid ns root rel _ (walk_node-IsValid n root rel s v)

scan_root-IsValid :
    (root : Bytes) (s : ScanState) (r : Root) → IsValid s → IsValid (scan_root root s r)
unfolding scan_root add_error
scan_root-IsValid root s (directory true ns) v = walk_nodes-IsValid ns root [] s v
scan_root-IsValid root s (directory false ns) v = record { distinct = v.distinct; shown = v.shown }
scan_root-IsValid root s stat_failed v = record { distinct = v.distinct; shown = v.shown }
scan_root-IsValid root s _ v = v

pub scan_roots-IsValid :
    (stat : Bytes → Root) (roots : List Bytes) (s : ScanState)
    → IsValid s
    → IsValid (scan_roots stat s roots)
unfolding scan_roots
scan_roots-IsValid stat [] s v = v
scan_roots-IsValid stat (root ∷ roots) s v =
    scan_roots-IsValid stat roots _ (scan_root-IsValid root s (stat root) v)

-- Shown entries whose ids rise strictly, so that no id comes twice.
abbrev pub IsListing : List Entry → Type 0
IsListing [] = Unit
IsListing (e ∷ es) = IsShown e.id e × All (λ f. lt_bytes e.id f.id ≡ true) es × IsListing es

insert_by-above :
    (k : Bytes) (e : Entry) (es : List Entry)
    → lt_bytes k e.id ≡ true
    → All (λ f. lt_bytes k f.id ≡ true) es
    → All (λ f. lt_bytes k f.id ≡ true) (insert_by less_id e es)
unfolding insert_by
insert_by-above k e [] h a = (h, tt)
insert_by-above k e (f ∷ es) h a = ground (arith, insert_by-above k e es h a.1)

above_trans :
    (j k : Bytes) (es : List Entry)
    → lt_bytes j k ≡ true
    → All (λ f. lt_bytes k f.id ≡ true) es
    → All (λ f. lt_bytes j f.id ≡ true) es
above_trans j k [] h a = tt
above_trans j k (f ∷ es) h a = (lt_bytes_trans j k f.id h a.0, above_trans j k es h a.1)

insert_by-IsListing :
    (e : Entry) (es : List Entry)
    → IsShown e.id e
    → All (λ f. f.id ≢ e.id) es
    → IsListing es
    → IsListing (insert_by less_id e es)
unfolding insert_by
insert_by-IsListing e [] h ne l = (h, tt, tt)
insert_by-IsListing e (f ∷ es) h ne l = elim (Bool-cases (less_id f e)) [
  | inl lt ↦ rw lt (l.0, insert_by-above f.id e es lt l.1, insert_by-IsListing e es h ne.1 l.2)
  | inr ge ↦ elim (Bool-cases (less_id e f)) [
    | inl lt ↦ rw ge (h, (lt, above_trans e.id f.id es lt l.1), l)
    | inr eq ↦ absurd (ne.0 (lt_bytes_total f.id e.id ge eq))
  ]
]

insert_by-ne :
    (k : Bytes) (e : Entry) (es : List Entry)
    → e.id ≢ k
    → All (λ f. f.id ≢ k) es
    → All (λ f. f.id ≢ k) (insert_by less_id e es)
unfolding insert_by
insert_by-ne k e [] h a = (h, tt)
insert_by-ne k e (f ∷ es) h a = ground (arith, insert_by-ne k e es h a.1)

pub sort_by-ne :
    (k : Bytes) (m : List (Bytes × Entry))
    → AllPairs IsShown m
    → lookup k m ≡ none
    → All (λ f. f.id ≢ k) (sort_by less_id (values m))
unfolding sort_by lookup values
sort_by-ne k [] a h = tt
sort_by-ne k ((j, e) ∷ m) a h =
    insert_by-ne k e _ (ground (arith, eq_bytes_iff j k, a.0.own_id))
      (sort_by-ne k m a.1 (ground arith))

sort_by-IsListing :
    (m : List (Bytes × Entry))
    → Distinct m
    → AllPairs IsShown m
    → IsListing (sort_by less_id (values m))
unfolding sort_by values
sort_by-IsListing [] d a = tt
sort_by-IsListing ((k, e) ∷ m) d a =
    insert_by-IsListing e _ (ground arith)
      (subst (λ j. All (λ f. f.id ≢ j) (sort_by less_id (values m))) (sym a.0.own_id)
        (sort_by-ne k m a.1 d.0))
      (sort_by-IsListing m d.1 a.1)

-- Whatever the file system holds, the entries that `Scan` returns are applications that are neither
-- hidden nor marked NoDisplay, and their ids rise strictly: sorted, with no id twice.
pub scan-IsListing : (stat : Bytes → Root) (paths : List Bytes) → IsListing (scan stat paths).0
unfolding scan
scan-IsListing stat paths =
    let v = scan_roots-IsValid stat paths no_entries (record { distinct = tt; shown = tt }) in
    sort_by-IsListing _ v.distinct v.shown
