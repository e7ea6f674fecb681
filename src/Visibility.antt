-- ===== src/Visibility.antt =====
-- server/internal/visibility/store.go: the ids that the operator hides from the phone. The set is a Go map to
-- `struct{}`, here a map to the unit type.
pub mod Laws
use remote_app_start_my_linu.Prelude.{
  ℕ, Bytes, is_empty, Bool, true, false, if◌then◌else◌, List, [], ◌∷◌, Option, none, some, Result,
  ok, err, length,
}
use remote_app_start_my_linu.Prelude.Assoc.{lookup, insert, has, keys}
use remote_app_start_my_linu.Prelude.Sort.{lt_bytes, sort_by}
use remote_app_start_my_linu.Storage.{
  Content, blank, garbage, json, Disk, Grants, WriteError, Outcome, write_atomic,
}

abbrev pub Ids : Type 0
Ids = List (Bytes × Unit {0})

pub record Store : Type 0 where
  pub hidden : Ids
  pub path : Bytes

abbrev pub new_store : Store
new_store = record { hidden = []; path = [] }

pub data LoadError : Type 0 where
  read_failed parse_failed : LoadError

-- The loop of `Load` and of `SetHidden`: empty ids are dropped.
unfoldable pub collect_ids : Ids → List Bytes → Ids
collect_ids next [] = next
collect_ids next (id ∷ ids) = collect_ids (if is_empty id then next else insert id tt next) ids

-- `Load`: the path is remembered in any case; the store behind the call comes first.
unfoldable pub load : Bool → Disk (List Bytes) → Store → Bytes → Store × Result LoadError (Unit {0})
unfolding collect_ids
load readable disk s path =
    let here = record s { path = path } in
    elim (lookup path disk) [
      | none ↦ (record here { hidden = [] }, ok tt)
      | some content ↦
          if readable
          then elim content [
            | blank ↦ (record here { hidden = [] }, ok tt)
            | garbage ↦ (here, err parse_failed)
            | json ids ↦ (record here { hidden = collect_ids [] ids }, ok tt)
          ]
          else (here, err read_failed)
    ]

unfoldable pub set_path : Store → Bytes → Store
set_path s path = record s { path = path }

unfoldable pub is_hidden : Store → Bytes → Bool
is_hidden s id = has id s.hidden

-- `sortedKeys`
unfoldable pub sorted_keys : Ids → List Bytes
sorted_keys m = sort_by lt_bytes (keys m)

-- `Hidden`
unfoldable pub hidden_list : Store → List Bytes
unfolding sorted_keys
hidden_list s = sorted_keys s.hidden

unfoldable pub count : Store → ℕ
count s = length (keys s.hidden)

-- `writeAtomic`, of the sorted ids.
abbrev write_ids : Grants → Bytes → Bytes → Ids → Disk (List Bytes) → Outcome (List Bytes)
write_ids g tmp path ids disk = write_atomic g tmp path (sorted_keys ids) disk

-- `SetHidden`: the store, the disk and the error behind the call. The code writes behind the mutex; here no
-- other call comes between.
unfoldable pub set_hidden :
    Grants
    → Bytes
    → Disk (List Bytes)
    → Store
    → List Bytes
    → Store × Disk (List Bytes) × Result WriteError (Unit {0})
unfolding collect_ids sorted_keys
set_hidden g tmp disk s ids =
    let next = collect_ids [] ids in
    let after = record s { hidden = next } in
    if is_empty s.path
    then (after, disk, ok tt)
    else (let o = write_ids g tmp s.path next disk in (after, o.final, o.result))
