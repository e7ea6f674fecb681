-- ===== src/Shortcuts/Tests.antt =====
-- The shortcut store at concrete shortcuts.
use remote_app_start_my_linu.Prelude.{
  Bytes, codes, trim_space, contains_byte, true, List, [], ◌∷◌, map, ok, ◌≡◌, refl, arith, eq_bytes,
}
use remote_app_start_my_linu.Prelude.Assoc.{lookup, insert}
use remote_app_start_my_linu.Prelude.Sort.{sort_by}
use remote_app_start_my_linu.Storage.{Disk, Grants, write_atomic}
use remote_app_start_my_linu.Shortcuts.{
  Shortcut, Store, less_id, load, new_store, trim_shortcut, list, replace,
}
use remote_app_start_my_linu.Shortcuts.Restart.{load-replace}

abbrev all_granted : Grants
all_granted = record {
  mkdirs = true;
  marshals = true;
  creates = true;
  writes = true;
  chmods = true;
  syncs = true;
  closes = true;
  renames = true;
  removes = true;
}

abbrev shortcut : Bytes → Bytes → Shortcut
shortcut id name = record {
  id = id;
  name = name;
  command = codes "make";
  cwd = [];
  terminal = [];
  icon = [];
}

abbrev two : List Shortcut
two = shortcut (codes "z") (codes " Build ") ∷ shortcut (codes "a ") (codes "Run") ∷ []

abbrev at_path : Store
at_path = record new_store { path = codes "s" }

abbrev after : Store × Disk (List Shortcut)
after = (
  (replace all_granted (codes "t") [] at_path two).0,
  (replace all_granted (codes "t") [] at_path two).1,
)

replace-after : replace all_granted (codes "t") [] at_path two ≡ (after.0, after.1, ok tt)
unfolding replace trim_space lookup insert eq_bytes contains_byte write_atomic
replace-after = refl

load-replace_example :
    ((load true after.1 new_store (codes "s")).1 ≡ ok tt)
    × (list after.0 ≡ map trim_shortcut two)
    × (list (load true after.1 new_store (codes "s")).0 ≡ sort_by less_id (list after.0))
unfolding lookup
load-replace_example =
    load-replace all_granted (codes "t") [] after.1 at_path after.0 two refl
      (λ e. absurd (ground arith)) refl replace-after new_store
