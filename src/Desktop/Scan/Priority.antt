-- ===== src/Desktop/Scan/Priority.antt =====
-- The rule of priorities: of two files with the same id, the later one counts.
use remote_app_start_my_linu.Prelude.{
  Bytes, eq_bytes, eq_bytes_iff, true, false, if◌then◌else◌, List, [], ◌∷◌, ◌++◌, Option, none,
  some, ok, err, ◌≡◌, ◌≢◌, refl, sym, ◌∙◌, subst, arith, Bool-cases, Result-cases, inl, inr, All,
}
use remote_app_start_my_linu.Prelude.Assoc.{lookup, lookup-insert, values}
use remote_app_start_my_linu.Prelude.Assoc.Distinct.{Distinct, AllPairs}
use remote_app_start_my_linu.Prelude.Sort.{sort_by, insert_by}
use remote_app_start_my_linu.Desktop.Entry.{Entry}
use remote_app_start_my_linu.Desktop.FileTree.{
  Node, file, dir, Nodes, nil, cons, Root, missing, stat_failed, not_dir, directory,
}
use remote_app_start_my_linu.Desktop.Lines.{Reader}
use remote_app_start_my_linu.Desktop.Scan.{
  ScanState, add_error, compute_id, is_desktop_file, parse_file, is_shown, visit_file, walk_node,
  walk_nodes, scan_root, scan_roots, less_id, no_entries, scan,
}
use remote_app_start_my_linu.Desktop.Scan.Shown.{IsShown, scan_roots-IsValid, sort_by-ne}

-- The entry of one file, under its id, if the scan takes it.
accepted_file : List Bytes → Bytes → Option Reader → List (Bytes × Entry)
accepted_file rel name reader =
    if is_desktop_file name
    then elim (parse_file reader) [
      | err cause ↦ []
      | ok e ↦ if is_shown e then (compute_id rel, record e { id = compute_id rel }) ∷ [] else []
    ]
    else []

mutual
  accepted_node : List Bytes → Node → List (Bytes × Entry)
  accepted_node rel (file name reader) = accepted_file (rel ++ name ∷ []) name reader
  accepted_node rel (dir name true children) = accepted_nodes (rel ++ name ∷ []) children
  accepted_node rel (dir name false children) = []

  accepted_nodes : List Bytes → Nodes → List (Bytes × Entry)
  accepted_nodes rel nil = []
  accepted_nodes rel (cons n ns) = accepted_node rel n ++ accepted_nodes rel ns

accepted_root : Root → List (Bytes × Entry)
accepted_root (directory true children) = accepted_nodes [] children
accepted_root _ = []

-- All entries that the scan takes, with their ids, in the order of the walk.
pub accepted : (Bytes → Root) → List Bytes → List (Bytes × Entry)
accepted stat [] = []
accepted stat (root ∷ roots) = accepted_root (stat root) ++ accepted stat roots

-- The last of them under an id.
pub last_entry : Bytes → List (Bytes × Entry) → Option Entry → Option Entry
last_entry k [] before = before
last_entry k ((j, e) ∷ es) before = last_entry k es (if eq_bytes j k then some e else before)

last_entry-append :
    (k : Bytes) (xs ys : List (Bytes × Entry)) (before : Option Entry)
    → last_entry k (xs ++ ys) before ≡ last_entry k ys (last_entry k xs before)
unfolding last_entry
last_entry-append k [] ys before = refl
last_entry-append k ((j, e) ∷ xs) ys before = last_entry-append k xs ys _

visit_file-lookup :
    (k root : Bytes) (rel : List Bytes) (name : Bytes) (r : Option Reader) (s : ScanState)
    → lookup k (visit_file root rel name r s).by_id
      ≡ last_entry k (accepted_file rel name r) (lookup k s.by_id)
unfolding visit_file add_error accepted_file last_entry
visit_file-lookup k root rel name r s = elim (Result-cases (parse_file r)) [
  | inr (c, e) ↦ ground arith
  | inl (entry, e) ↦ elim (Bool-cases (is_shown entry)) [
    | inl h ↦
        ground
          (arith, lookup-insert (compute_id rel) k (record entry { id = compute_id rel }) s.by_id)
    | inr h ↦ ground arith
  ]
]

mutual
  unfolding walk_node walk_nodes add_error accepted_node accepted_nodes last_entry

  walk_node-lookup :
      (n : Node) (k root : Bytes) (rel : List Bytes) (s : ScanState)
      → lookup k (walk_node root rel s n).by_id
        ≡ last_entry k (accepted_node rel n) (lookup k s.by_id)
  walk_node-lookup (file name r) k root rel s = visit_file-lookup k root _ name r s
  walk_node-lookup (dir name true ns) k root rel s = walk_nodes-lookup ns k root _ s
  walk_node-lookup (dir name false ns) k root rel s = refl

  walk_nodes-lookup :
      (ns : Nodes) (k root : Bytes) (rel : List Bytes) (s : ScanState)
      → lookup k (walk_nodes root rel s ns).by_id
        ≡ last_entry k (accepted_nodes rel ns) (lookup k s.by_id)
  walk_nodes-lookup nil k root rel s = refl
  walk_nodes-lookup (cons n ns) k root rel s =
      walk_nodes-lookup ns k root rel _
      ∙ rw (walk_node-lookup n k root rel s)
          (sym (last_entry-append k (accepted_node rel n) (accepted_nodes rel ns) _))

scan_root-lookup :
    (k root : Bytes) (s : ScanState) (r : Root)
    → lookup k (scan_root root s r).by_id ≡ last_entry k (accepted_root r) (lookup k s.by_id)
unfolding scan_root add_error accepted_root last_entry
scan_root-lookup k root s (directory true ns) = walk_nodes-lookup ns k root [] s
scan_root-lookup k root s (directory false ns) = refl
scan_root-lookup k root s missing = refl
scan_root-lookup k root s stat_failed = refl
scan_root-lookup k root s not_dir = refl

scan_roots-lookup :
    (stat : Bytes → Root) (k : Bytes) (roots : List Bytes) (s : ScanState)
    → lookup k (scan_roots stat s roots).by_id
      ≡ last_entry k (accepted stat roots) (lookup k s.by_id)
unfolding scan_roots accepted last_entry
scan_roots-lookup stat k [] s = refl
scan_roots-lookup stat k (root ∷ roots) s =
    scan_roots-lookup stat k roots _
    ∙ rw (scan_root-lookup k root s (stat root))
        (sym (last_entry-append k (accepted_root (stat root)) (accepted stat roots) _))

-- The entry with an id in a list of entries.
unfoldable pub find_id : Bytes → List Entry → Option Entry
find_id k [] = none
find_id k (e ∷ es) = if eq_bytes e.id k then some e else find_id k es

find_id-insert_by :
    (k : Bytes) (e : Entry) (es : List Entry)
    → All (λ f. f.id ≢ e.id) es
    → find_id k (insert_by less_id e es) ≡ (if eq_bytes e.id k then some e else find_id k es)
unfolding find_id insert_by
find_id-insert_by k e [] ne = refl
find_id-insert_by k e (f ∷ es) ne =
    ground (arith, eq_bytes_iff e.id k, eq_bytes_iff f.id k, find_id-insert_by k e es ne.1)

find_id-sort_by :
    (k : Bytes) (m : List (Bytes × Entry))
    → Distinct m
    → AllPairs IsShown m
    → find_id k (sort_by less_id (values m)) ≡ lookup k m
unfolding sort_by values lookup
find_id-sort_by k [] d a = unfold find_id in refl
find_id-sort_by k ((j, e) ∷ m) d a =
    find_id-insert_by k e _ (
      subst (λ i. All (λ f. f.id ≢ i) (sort_by less_id (values m))) (sym a.0.own_id)
        (sort_by-ne j m a.1 d.0))
    ∙ rw (a.0.own_id, find_id-sort_by k m d.1 a.1)

-- Under every id `Scan` returns the last entry that the walk takes under it, in the order of the
-- roots and, below a root, of the files: a later root overrides an earlier one. Where the walk
-- takes none, the result holds none.
pub scan-last_entry :
    (stat : Bytes → Root) (paths : List Bytes) (k : Bytes)
    → find_id k (scan stat paths).0 ≡ last_entry k (accepted stat paths) none
unfolding scan
scan-last_entry stat paths k =
    let v = scan_roots-IsValid stat paths no_entries (record { distinct = tt; shown = tt }) in
    find_id-sort_by k _ v.distinct v.shown
    ∙ scan_roots-lookup stat k paths no_entries
    ∙ unfold lookup in refl
