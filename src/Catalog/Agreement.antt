-- ===== src/Catalog/Agreement.antt =====
-- What the two representations of a catalog have in common.
use remote_app_start_my_linu.Prelude.{
  Bytes, eq_bytes, eq_bytes_iff, true, false, List, [], ◌∷◌, map, Option, none, some, ◌≡◌, refl,
  subst, ◌∙◌, arith, inl, inr, Bool-cases, All,
}
use remote_app_start_my_linu.Prelude.Assoc.{lookup, insert, lookup-insert}
use remote_app_start_my_linu.Prelude.Sort.{
  lt_bytes, lt_bytes_asymm, lt_bytes_trans, lt_bytes_total, sort_by-perm, IsSorted,
  sort_by-IsSorted,
}
use mathlib.Core.List.{Perm}
use remote_app_start_my_linu.Desktop.Entry.{Entry}
use remote_app_start_my_linu.Desktop.FileTree.{Root}
use remote_app_start_my_linu.Desktop.Scan.{scan}
use remote_app_start_my_linu.Desktop.Scan.Shown.{IsListing, scan-IsListing}
use remote_app_start_my_linu.Desktop.Scan.Priority.{find_id}
use remote_app_start_my_linu.Catalog.{
  AppInfo, Catalog, entry_to_app_info, index_entries, less_name, or_default, reload, get,
}

find_id-above :
    (k : Bytes) (es : List Entry) → All (λ f. lt_bytes k f.id ≡ true) es → find_id k es ≡ none
unfolding find_id
find_id-above k [] h = refl
find_id-above k (e ∷ es) h =
    ground (arith, eq_bytes_iff e.id k, lt_bytes_asymm k k, find_id-above k es h.1)

abbrev or_lookup : Option Entry → Option Entry → Option Entry
or_lookup none before = before
or_lookup (some e) before = some e

or_lookup_none : (k : Bytes) (o : Option Entry) → or_lookup o (lookup k []) ≡ o
unfolding lookup
or_lookup_none k none = refl
or_lookup_none k (some e) = refl

lookup-index_entries :
    (k : Bytes) (m : List (Bytes × Entry)) (es : List Entry)
    → IsListing es
    → lookup k (index_entries m es) ≡ or_lookup (find_id k es) (lookup k m)
unfolding index_entries find_id
lookup-index_entries k m [] h = refl
lookup-index_entries k m (e ∷ es) (shown, above, rest) =
    lookup-index_entries k (insert e.id e m) es rest ∙ elim (Bool-cases (eq_bytes e.id k)) [
      | inl same ↦
          let later : find_id k es ≡ none =
            subst (λ z. find_id z es ≡ none) ((eq_bytes_iff e.id k).0 same)
              (find_id-above e.id es above) in
          rw later ground (arith, lookup-insert e.id k e m)
      | inr other ↦ ground (arith, lookup-insert e.id k e m)
    ]

not_less_trans :
    (a b c : Bytes) → lt_bytes b a ≡ false → lt_bytes c b ≡ false → lt_bytes c a ≡ false
not_less_trans a b c h k = ground (arith, lt_bytes_total b a, lt_bytes_trans c a b)

module _ (to_lower : Bytes → Bytes) where
  less_name_asymm : (a b : AppInfo) → less_name to_lower a b ≡ true → less_name to_lower b a ≡ false
  unfolding less_name
  less_name_asymm a b h = ground (
    arith,
    eq_bytes_iff (to_lower a.name) (to_lower b.name),
    eq_bytes_iff (to_lower b.name) (to_lower a.name),
    lt_bytes_asymm (to_lower a.name) (to_lower b.name),
    lt_bytes_asymm a.id b.id,
  )

  less_name_trans :
      (a b c : AppInfo)
      → less_name to_lower b a ≡ false
      → less_name to_lower c b ≡ false
      → less_name to_lower c a ≡ false
  unfolding less_name
  less_name_trans a b c h k =
      let x = to_lower a.name in
      let y = to_lower b.name in
      let z = to_lower c.name in
      ground (
        arith,
        eq_bytes_iff y x,
        eq_bytes_iff z y,
        eq_bytes_iff z x,
        lt_bytes_asymm x x,
        lt_bytes_total y x,
        not_less_trans x y z,
        not_less_trans a.id b.id c.id,
      )

  -- A catalog that holds the entries of a scan in both representations.
  pub record Agrees (entries : List Entry) (c : Catalog) : Type 0 where
    pub gets : (k : Bytes) → get c k ≡ find_id k entries
    pub lists : Perm c.list (map entry_to_app_info entries)
    pub sorted : IsSorted (less_name to_lower) c.list

  -- After `Reload` the map finds under each id the entry that the scan returned with that id, and
  -- nothing under any other; the list has each entry of the scan once, sorted by the lowercase name
  -- and then by the id. This holds whatever the catalog held before.
  pub reload-Agrees :
      (stat : Bytes → Root) (defaults : List Bytes) (c : Catalog)
      → Agrees (scan stat (or_default c.paths defaults)).0 (reload to_lower stat defaults c).0
  unfolding reload get
  reload-Agrees stat defaults c =
      let entries = (scan stat (or_default c.paths defaults)).0 in
      record {
        gets = λ k.
            lookup-index_entries k [] entries (scan-IsListing stat (or_default c.paths defaults))
            ∙ or_lookup_none k (find_id k entries);
        lists = sort_by-perm (less_name to_lower) (map entry_to_app_info entries);
        sorted =
            sort_by-IsSorted (less_name to_lower) less_name_asymm less_name_trans
              (map entry_to_app_info entries);
      }
