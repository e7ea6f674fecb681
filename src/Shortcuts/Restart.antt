-- ===== src/Shortcuts/Restart.antt =====
-- What a restart makes of the shortcuts: the file that `Replace` has written is loaded.
use remote_app_start_my_linu.Prelude.{
  ℕ, ◌+◌, Bytes, eq_bytes, eq_bytes_iff, is_empty, true, false, List, [], ◌∷◌, ◌++◌, map, some, ok,
  ◌≡◌, ◌≢◌, ◌↔◌, none, refl, sym, ◌∙◌, ap, arith, subst, inl, inr, Bool-cases, Result-cases, All,
}
use remote_app_start_my_linu.Prelude.Assoc.{has, lookup, insert, lookup-insert}
use remote_app_start_my_linu.Prelude.Sort.{sort_by, insert_by, insert_by-All}
use remote_app_start_my_linu.Storage.{Disk, Grants, json, write_atomic}
use remote_app_start_my_linu.Storage.Atomic.{write_atomic-IsAtomic}
use remote_app_start_my_linu.Shortcuts.{
  Shortcut, Store, trim_shortcut, Index, empty_index, index_one, index_all, pick, list, less_id,
  replace, load,
}
use remote_app_start_my_linu.Shortcuts.Listing.{
  IsSound, IsSound-validate, Accepts, index_one-Accepts, empty_index-Indexes, index_all-Indexes,
}

abbrev Differ : Shortcut → Shortcut → Type 0
Differ a b = eq_bytes a.id b.id ≡ false

-- No two shortcuts have the same id.
abbrev Apart : List Shortcut → Type 0
Apart [] = Unit
Apart (x ∷ xs) = All (Differ x) xs × Apart xs

Differ-sym : (a b : Shortcut) → Differ a b → Differ b a
Differ-sym a b h = ground (arith, eq_bytes_iff a.id b.id, eq_bytes_iff b.id a.id)

insert_by-Apart :
    (x : Shortcut) (ys : List Shortcut)
    → All (Differ x) ys
    → Apart ys
    → Apart (insert_by less_id x ys)
unfolding insert_by
insert_by-Apart x [] h a = (tt, tt)
insert_by-Apart x (y ∷ ys) h a = elim (Bool-cases (less_id y x)) [
  | inl e ↦
      rw e (
        insert_by-All less_id (Differ y) x ys (Differ-sym x y h.0) a.0,
        insert_by-Apart x ys h.1 a.1,
      )
  | inr e ↦ rw e (h, a)
]

sort_by-All : (P : Shortcut → Type 0) (xs : List Shortcut) → All P xs → All P (sort_by less_id xs)
unfolding sort_by
sort_by-All P [] h = tt
sort_by-All P (x ∷ xs) h = insert_by-All less_id P x (sort_by less_id xs) h.0 (sort_by-All P xs h.1)

sort_by-Apart : (xs : List Shortcut) → Apart xs → Apart (sort_by less_id xs)
unfolding sort_by
sort_by-Apart [] h = tt
sort_by-Apart (x ∷ xs) h =
    insert_by-Apart x (sort_by less_id xs) (sort_by-All (Differ x) xs h.0) (sort_by-Apart xs h.1)

-- The shortcuts that are still to come have ids that the index does not have.
abbrev AllNew : Index → List Shortcut → Type 0
AllNew x scs = All (λ sc. has sc.id x.next ≡ false) scs

new_key :
    (m : List (Bytes × Shortcut)) (sc d : Shortcut)
    → (has d.id (insert sc.id sc m) ≡ false) ↔ ((has d.id m ≡ false) × Differ sc d)
new_key m sc d = ground (arith, lookup-insert sc.id d.id sc m)

accepted-AllNew :
    (x y : Index) (sc : Shortcut) (scs : List Shortcut)
    → Accepts x y sc
    → AllNew y scs
    → AllNew x scs × All (Differ sc) scs
accepted-AllNew x y sc [] a h = (tt, tt)
accepted-AllNew x y sc (d ∷ scs) a h =
    let k = subst (λ m. has d.id m ≡ false) a.next_is h.0 in
    let (r, q) = accepted-AllNew x y sc scs a h.1 in
    let both = (new_key x.next sc d).0 k in ((both.0, r), (both.1, q))

index_all-Apart :
    (i : ℕ) (x y : Index) (scs : List Shortcut)
    → index_all i x scs ≡ ok y
    → Apart scs × AllNew x scs
unfolding index_all
index_all-Apart i x y [] e = (tt, tt)
index_all-Apart i x y (sc ∷ scs) e = elim (Result-cases (index_one x sc)) [
  | inr (f, bad) ↦ absurd (ground arith)
  | inl (z, good) ↦
      let a = index_one-Accepts x z sc good in
      let (r, n) = index_all-Apart (i + 1) z y scs (ground arith) in
      let (m, q) = accepted-AllNew x z sc scs a n in ((q, r), (a.new, m))
]

-- The index behind one more shortcut.
abbrev one_more : Index → Shortcut → Index
one_more x sc = record { next = insert sc.id sc x.next; sequence = x.sequence ++ sc.id ∷ [] }

index_one_new :
    (x : Index) (sc : Shortcut)
    → IsSound sc
    → has sc.id x.next ≡ false
    → index_one x sc ≡ ok (one_more x sc)
unfolding index_one
index_one_new x sc s n = ground (arith, IsSound-validate sc s)

still-AllNew :
    (x : Index) (sc : Shortcut) (scs : List Shortcut)
    → AllNew x scs
    → All (Differ sc) scs
    → AllNew (one_more x sc) scs
still-AllNew x sc [] h d = tt
still-AllNew x sc (e ∷ scs) h d =
    ((new_key x.next sc e).1 (h.0, d.0), still-AllNew x sc scs h.1 d.1)

-- Sound shortcuts with ids of their own are accepted.
index_all_new :
    (i : ℕ) (x : Index) (scs : List Shortcut)
    → All IsSound scs
    → Apart scs
    → AllNew x scs
    → (y : Index) × (index_all i x scs ≡ ok y)
unfolding index_all
index_all_new i x [] s a n = (x, refl)
index_all_new i x (sc ∷ scs) s a n =
    let (y, e) =
      index_all_new (i + 1) (one_more x sc) scs s.1 a.1 (still-AllNew x sc scs n.1 a.0) in
    (y, ground (arith, index_one_new x sc s.0 n.0))

sorted_again :
    (x : Index) (scs : List Shortcut)
    → index_all 0 empty_index scs ≡ ok x
    → (y : Index) × (index_all 0 empty_index (sort_by less_id scs) ≡ ok y)
      × (pick y.next y.sequence ≡ sort_by less_id scs)
sorted_again x scs e =
    let sound = (index_all-Indexes 0 empty_index x [] scs empty_index-Indexes e).sound in
    let (a, n) = index_all-Apart 0 empty_index x scs e in
    let (y, f) =
      index_all_new 0 empty_index (sort_by less_id scs) (sort_by-All IsSound scs sound)
        (sort_by-Apart scs a) (sort_by-All _ scs n) in
    (
      y,
      f,
      (index_all-Indexes 0 empty_index y [] (sort_by less_id scs) empty_index-Indexes f).picked,
    )

load-json :
    (disk : Disk (List Shortcut)) (fresh : Store) (path : Bytes) (scs : List Shortcut) (y : Index)
    → lookup path disk ≡ some (json scs)
    → index_all 0 empty_index scs ≡ ok y
    → ((load true disk fresh path).1 ≡ ok tt)
      × (list (load true disk fresh path).0 ≡ pick y.next y.sequence)
unfolding load list
load-json disk fresh path scs y h e = (ground arith, ground arith)

-- If `Replace` succeeds on a store with a path, a store that loads the file succeeds too and lists the
-- same shortcuts, trimmed, but sorted by their ids: the order of the call is lost. The temporary
-- file must have a name of its own.
pub load-replace :
    (g : Grants) (tmp : Bytes) (disk disk' : Disk (List Shortcut)) (s s' : Store)
    (scs : List Shortcut)
    → is_empty s.path ≡ false
    → tmp ≢ s.path
    → lookup tmp disk ≡ none
    → replace g tmp disk s scs ≡ (s', disk', ok tt)
    → (fresh : Store)
    → ((load true disk' fresh s.path).1 ≡ ok tt)
      × (list s' ≡ map trim_shortcut scs)
      × (list (load true disk' fresh s.path).0 ≡ sort_by less_id (list s'))
unfolding replace list
load-replace g tmp disk disk' s s' scs set apart unused h fresh =
    elim (Result-cases (index_all 0 empty_index (map trim_shortcut scs))) [
      | inr (f, bad) ↦ absurd (ground arith)
      | inl (x, good) ↦
          let saved = sort_by less_id (pick x.next x.sequence) in
          let o = write_atomic g tmp s.path saved disk in
          let trimmed =
            (index_all-Indexes 0 empty_index x [] (map trim_shortcut scs) empty_index-Indexes
              good).picked in
          elim (write_atomic-IsAtomic g tmp s.path saved disk apart unused).decided [
            | inr (e, failed, _) ↦ absurd (ground arith)
            | inl (_, held) ↦
                let (y, f, p) = sorted_again x (map trim_shortcut scs) good in
                let on_disk : lookup s.path disk' ≡ some (json saved) = ground arith in
                let sorted : saved ≡ sort_by less_id (map trim_shortcut scs) =
                  ap (sort_by less_id) trimmed in
                let items_are : s'.items ≡ x.next = ground arith in
                let order_is : s'.order ≡ x.sequence = ground arith in
                let kept : list s' ≡ pick x.next x.sequence =
                  ap (λ m. pick m s'.order) items_are ∙ ap (pick x.next) order_is in
                let (done, listed) =
                  load-json disk' fresh s.path saved y on_disk
                    (subst (λ z. index_all 0 empty_index z ≡ ok y) (sym sorted) f) in
                (done, kept ∙ trimmed, listed ∙ (p ∙ ap (sort_by less_id) (sym (kept ∙ trimmed))))
          ]
    ]
