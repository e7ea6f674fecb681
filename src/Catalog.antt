-- ===== src/Catalog.antt =====
-- server/internal/catalog/catalog.go: the applications found by a scan. `to_lower` is
-- `strings.ToLower`; the paths are those of the scan, the default ones where none are configured.
pub mod Agreement
mod Tests
use remote_app_start_my_linu.Prelude.{
  ℕ, Bytes, eq_bytes, is_empty, Bool, true, false, not, ◌&&◌, if◌then◌else◌, List, [], ◌∷◌, map,
  Option, none, some, length,
}
use remote_app_start_my_linu.Prelude.Assoc.{lookup, insert}
use remote_app_start_my_linu.Prelude.Sort.{lt_bytes, sort_by}
use remote_app_start_my_linu.Desktop.Entry.{Entry}
use remote_app_start_my_linu.Desktop.FileTree.{Root}
use remote_app_start_my_linu.Desktop.Scan.{ScanError, scan}

pub record AppInfo : Type 0 where
  pub id : Bytes
  pub name : Bytes
  pub comment : Bytes
  pub icon : Bytes
  pub categories : List Bytes
  pub running : Bool
  pub no_display : Bool

pub record Catalog : Type 0 where
  pub paths : List Bytes
  pub by_id : List (Bytes × Entry)
  pub list : List AppInfo

unfoldable pub entry_to_app_info : Entry → AppInfo
entry_to_app_info e = record {
  id = e.id;
  name = e.name;
  comment = e.comment;
  icon = e.icon;
  categories = e.categories;
  running = false;
  no_display = e.no_display;
}

-- The map that `Reload` builds.
unfoldable pub index_entries : List (Bytes × Entry) → List Entry → List (Bytes × Entry)
index_entries by_id [] = by_id
index_entries by_id (e ∷ es) = index_entries (insert e.id e by_id) es

-- The order of `sortAppInfos`.
unfoldable pub less_name : (Bytes → Bytes) → AppInfo → AppInfo → Bool
less_name to_lower a b =
    if not (eq_bytes (to_lower a.name) (to_lower b.name))
    then lt_bytes (to_lower a.name) (to_lower b.name)
    else lt_bytes a.id b.id

abbrev pub or_default : List Bytes → List Bytes → List Bytes
or_default [] defaults = defaults
or_default (p ∷ ps) defaults = p ∷ ps

-- `Reload`, and `Load`: the catalog behind it, how many applications it has and the errors of the scan.
unfoldable pub reload :
    (Bytes → Bytes) → (Bytes → Root) → List Bytes → Catalog → Catalog × ℕ × List ScanError
unfolding index_entries entry_to_app_info less_name
reload to_lower stat defaults c =
    let (entries, errs) = scan stat (or_default c.paths defaults) in
    let list = sort_by (less_name to_lower) (map entry_to_app_info entries) in
    (record c { by_id = index_entries [] entries; list = list }, length list, errs)

unfoldable pub get : Catalog → Bytes → Option Entry
get c id = lookup id c.by_id

unfoldable get_info : Catalog → Bytes → Option AppInfo
unfolding entry_to_app_info
get_info c id = elim (lookup id c.by_id) [ none ↦ none | some e ↦ some (entry_to_app_info e) ]
