-- ===== src/Shortcuts.antt =====
-- server/internal/shortcuts/store.go: the launcher entries that the operator defines.
pub mod Listing
pub mod Restart
mod Tests
use remote_app_start_my_linu.Prelude.{
  ℕ, ◌+◌, Bytes, codes, eq_bytes, contains_byte, has_prefix, drop, trim_space, is_empty, Bool, true,
  false, ◌||◌, if◌then◌else◌, List, [], ◌∷◌, ◌++◌, map, Option, none, some, Result, ok, err, ◌>>=◌,
  map_err, length,
}
use remote_app_start_my_linu.Prelude.Assoc.{lookup, insert, has, keys}
use remote_app_start_my_linu.Prelude.Sort.{lt_bytes, sort_by}
use remote_app_start_my_linu.Storage.{
  Content, blank, garbage, json, Disk, Grants, WriteError, Outcome, write_atomic,
}

-- `IDPrefix`
abbrev id_prefix : Bytes
id_prefix = codes "custom:"

pub record Shortcut : Type 0 where
  pub id : Bytes
  pub name : Bytes
  pub command : Bytes
  pub cwd : Bytes
  pub terminal : Bytes
  pub icon : Bytes

pub record Store : Type 0 where
  pub items : List (Bytes × Shortcut)
  pub order : List Bytes
  pub path : Bytes

abbrev pub new_store : Store
new_store = record { items = []; order = []; path = [] }

-- What is wrong with one shortcut.
pub data Flaw : Type 0 where
  empty_id separator_in_id empty_name empty_command duplicate_id : Flaw

-- `validate`
unfoldable pub validate : Shortcut → Result Flaw (Unit {0})
validate sc =
    if is_empty sc.id
    then err empty_id
    else if contains_byte b'/' sc.id || contains_byte b' ' sc.id
    then err separator_in_id
    else if is_empty sc.name
    then err empty_name
    else if is_empty sc.command
    then err empty_command
    else ok tt

unfoldable pub trim_shortcut : Shortcut → Shortcut
trim_shortcut sc = record {
  id = trim_space sc.id;
  name = trim_space sc.name;
  command = trim_space sc.command;
  cwd = trim_space sc.cwd;
  terminal = trim_space sc.terminal;
  icon = trim_space sc.icon;
}

-- The maps that `Load` and `Replace` build.
pub record Index : Type 0 where
  pub next : List (Bytes × Shortcut)
  pub sequence : List Bytes

abbrev pub empty_index : Index
empty_index = record { next = []; sequence = [] }

unfoldable pub index_one : Index → Shortcut → Result Flaw Index
unfolding validate
index_one x sc = elim (validate sc) [
  | err f ↦ err f
  | ok _ ↦
      if has sc.id x.next
      then err duplicate_id
      else ok (record { next = insert sc.id sc x.next; sequence = x.sequence ++ sc.id ∷ [] })
]

-- The loop; an error says at which shortcut.
unfoldable pub index_all : ℕ → Index → List Shortcut → Result (ℕ × Flaw) Index
index_all i x [] = ok x
index_all i x (sc ∷ scs) = elim (index_one x sc) [
  | err f ↦ err (i, f)
  | ok y ↦ index_all (i + 1) y scs
]

-- The shortcuts of the ids of a sequence.
unfoldable pub pick : List (Bytes × Shortcut) → List Bytes → List Shortcut
pick items [] = []
pick items (id ∷ ids) = elim (lookup id items) [
  | none ↦ pick items ids
  | some sc ↦ sc ∷ pick items ids
]

pub data LoadError : Type 0 where
  read_failed parse_failed : LoadError
  invalid : ℕ × Flaw → LoadError

-- `Load`: the path is remembered in any case; the store behind the call comes first.
unfoldable pub load :
    Bool → Disk (List Shortcut) → Store → Bytes → Store × Result LoadError (Unit {0})
unfolding index_all index_one
load readable disk s path =
    let here = record s { path = path } in
    elim (lookup path disk) [
      | none ↦ (record here { items = []; order = [] }, ok tt)
      | some content ↦
          if readable
          then elim content [
            | blank ↦ (record here { items = []; order = [] }, ok tt)
            | garbage ↦ (here, err parse_failed)
            | json scs ↦ elim (index_all 0 empty_index scs) [
              | err f ↦ (here, err (invalid f))
              | ok x ↦ (record here { items = x.next; order = x.sequence }, ok tt)
            ]
          ]
          else (here, err read_failed)
    ]

unfoldable pub set_path : Store → Bytes → Store
set_path s path = record s { path = path }

unfoldable pub get : Store → Bytes → Option Shortcut
get s id = lookup id s.items

-- `List`
unfoldable pub list : Store → List Shortcut
unfolding pick
list s = pick s.items s.order

unfoldable pub count : Store → ℕ
count s = length (keys s.items)

abbrev pub less_id : Shortcut → Shortcut → Bool
less_id a b = lt_bytes a.id b.id

pub data ReplaceError : Type 0 where
  invalid_shortcut : ℕ × Flaw → ReplaceError
  write_failed : WriteError → ReplaceError

-- `Replace`: the store, the disk and the error behind the call. The file holds the shortcuts sorted
-- by their ids. The code writes behind the mutex; here no other call comes between.
unfoldable pub replace :
    Grants
    → Bytes
    → Disk (List Shortcut)
    → Store
    → List Shortcut
    → Store × Disk (List Shortcut) × Result ReplaceError (Unit {0})
unfolding index_all index_one pick trim_shortcut
replace g tmp disk s scs = elim (index_all 0 empty_index (map trim_shortcut scs)) [
  | err f ↦ (s, disk, err (invalid_shortcut f))
  | ok x ↦
      let after = record s { items = x.next; order = x.sequence } in
      if is_empty s.path
      then (after, disk, ok tt)
      else (let o = write_atomic g tmp s.path (sort_by less_id (pick x.next x.sequence)) disk in
          (after, o.final, map_err write_failed o.result))
]

-- `NormalizeID`
unfoldable pub normalize_id : Bytes → Bytes × Bool
normalize_id id =
    if has_prefix id id_prefix then (drop (length id_prefix) id, true) else (id, false)

-- `PrefixedID`
unfoldable pub prefixed_id : Bytes → Bytes
prefixed_id id = id_prefix ++ id
