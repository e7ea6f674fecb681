-- ===== src/Visibility/Laws.antt =====
-- The set that the store stands for, and that it survives a restart.
use remote_app_start_my_linu.Prelude.{
  Bytes, eq_bytes, eq_bytes_iff, is_empty, Bool, true, false, not, ◌||◌, ◌&&◌, List, [], ◌∷◌, none,
  some, ok, ◌≡◌, ◌≢◌, refl, ◌∙◌, arith, inl, inr,
}
use remote_app_start_my_linu.Prelude.Assoc.{lookup, insert, has, keys, lookup-insert}
use remote_app_start_my_linu.Prelude.Sort.{lt_bytes, sort_by, insert_by}
use remote_app_start_my_linu.Storage.{json, Disk, Grants, write_atomic}
use remote_app_start_my_linu.Storage.Atomic.{write_atomic-IsAtomic}
use remote_app_start_my_linu.Visibility.{
  Ids, Store, collect_ids, load, is_hidden, sorted_keys, set_hidden,
}

-- An id is in a list, with a test on byte strings.
abbrev pub listed : Bytes → List Bytes → Bool
listed k [] = false
listed k (i ∷ is) = eq_bytes i k || listed k is

-- The set is that of the nonempty ids collected.
collect_ids-listed :
    (ids : List Bytes) (next : Ids) (k : Bytes)
    → has k (collect_ids next ids) ≡ (has k next || (not (is_empty k) && listed k ids))
unfolding collect_ids
collect_ids-listed [] next k = ground arith
collect_ids-listed ([] ∷ ids) next k =
    ground (arith, collect_ids-listed ids next k, eq_bytes_iff [] k)
collect_ids-listed ((c ∷ id) ∷ ids) next k = ground (
  arith,
  collect_ids-listed ids (insert (c ∷ id) tt next) k,
  lookup-insert (c ∷ id) k tt next,
  eq_bytes_iff (c ∷ id) k,
)

-- A sorted list has the same ids.
listed-insert_by :
    (k x : Bytes) (ys : List Bytes)
    → listed k (insert_by lt_bytes x ys) ≡ (eq_bytes x k || listed k ys)
unfolding insert_by
listed-insert_by k x [] = refl
listed-insert_by k x (y ∷ ys) = ground (arith, listed-insert_by k x ys)

listed-sorted_keys : (k : Bytes) (m : Ids) → listed k (sort_by lt_bytes (keys m)) ≡ has k m
unfolding sort_by keys lookup
listed-sorted_keys k [] = refl
listed-sorted_keys k ((j, u) ∷ m) = listed-insert_by k j _ ∙ ground (arith, listed-sorted_keys k m)

collect_ids-new :
    (ids : List Bytes) (k : Bytes) → has k (collect_ids [] ids) ≡ (not (is_empty k) && listed k ids)
unfolding lookup
collect_ids-new ids k = collect_ids-listed ids [] k

-- `SetHidden` hides exactly the nonempty ids of its argument, whatever was hidden before and
-- whatever becomes of the file.
pub is_hidden-set_hidden :
    (g : Grants) (tmp : Bytes) (disk : Disk (List Bytes)) (s : Store) (ids : List Bytes) (k : Bytes)
    → is_hidden (set_hidden g tmp disk s ids).0 k ≡ (not (is_empty k) && listed k ids)
unfolding is_hidden set_hidden
is_hidden-set_hidden g tmp disk s ids k = ground (arith, collect_ids-new ids k)

load-json :
    (disk : Disk (List Bytes)) (fresh : Store) (path : Bytes) (ids : List Bytes)
    → lookup path disk ≡ some (json ids)
    → (load true disk fresh path).0.hidden ≡ collect_ids [] ids
unfolding load
load-json disk fresh path ids h = rw (h, load)

-- The ids that were collected are collected again from their sorted list.
collect_again :
    (ids : List Bytes) (k : Bytes)
    → has k (collect_ids [] (sorted_keys (collect_ids [] ids))) ≡ has k (collect_ids [] ids)
unfolding sorted_keys
collect_again ids k = ground (
  arith,
  collect_ids-new (sort_by lt_bytes (keys (collect_ids [] ids))) k,
  listed-sorted_keys k (collect_ids [] ids),
  collect_ids-new ids k,
)

-- If `SetHidden` succeeds on a store with a path, a store that loads the file hides the same ids,
-- provided that the temporary file has a name of its own.
load-set_hidden :
    (g : Grants) (tmp : Bytes) (disk disk' : Disk (List Bytes)) (s s' : Store) (ids : List Bytes)
    → is_empty s.path ≡ false
    → tmp ≢ s.path
    → lookup tmp disk ≡ none
    → set_hidden g tmp disk s ids ≡ (s', disk', ok tt)
    → (fresh : Store) (k : Bytes) → is_hidden (load true disk' fresh s.path).0 k ≡ is_hidden s' k
unfolding is_hidden set_hidden
load-set_hidden g tmp disk disk' s s' ids set apart unused h fresh k =
    let saved = sorted_keys (collect_ids [] ids) in
    let o = write_atomic g tmp s.path saved disk in
    elim (write_atomic-IsAtomic g tmp s.path saved disk apart unused).decided [
      | inr (e, failed, _) ↦ absurd (ground arith)
      | inl (_, held) ↦
          let loaded : (load true disk' fresh s.path).0.hidden ≡ collect_ids [] saved =
            load-json disk' fresh s.path saved (ground arith) in
          let kept : s'.hidden ≡ collect_ids [] ids = ground arith in
          rw (loaded, kept) (collect_again ids k)
    ]
