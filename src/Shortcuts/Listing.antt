-- ===== src/Shortcuts/Listing.antt =====
-- What a store lists, and when a new set is refused.
use remote_app_start_my_linu.Prelude.{
  ℕ, ◌+◌, Bytes, eq_bytes, eq_bytes_iff, contains_byte, has_prefix, is_empty, Bool, true, false,
  ◌||◌, List, [], ◌∷◌, ◌++◌, map, ok, err, ◌≡◌, ◌≢◌, refl, sym, ◌∙◌, ap, arith, subst, inl, inr,
  Bool-cases, Result-cases, append_assoc, append-nil, All, All-append,
}
use remote_app_start_my_linu.Prelude.Assoc.{lookup, insert, has, lookup-insert, lookup-insert_self}
use remote_app_start_my_linu.Storage.{Disk, Grants}
use remote_app_start_my_linu.Shortcuts.{
  Shortcut, Store, Flaw, validate, trim_shortcut, Index, empty_index, index_one, index_all, pick,
  list, invalid_shortcut, replace, normalize_id, prefixed_id,
}

-- A shortcut that `validate` accepts.
pub record IsSound (sc : Shortcut) : Type 0 where
  pub has_id : sc.id ≢ []
  pub no_slash : contains_byte b'/' sc.id ≡ false
  pub no_space : contains_byte b' ' sc.id ≡ false
  pub has_name : sc.name ≢ []
  pub has_command : sc.command ≢ []

not_empty : (s : Bytes) → is_empty s ≡ false → s ≢ []
not_empty s h e = absurd (ground arith)

validate-IsSound : (sc : Shortcut) → validate sc ≡ ok tt → IsSound sc
unfolding validate
validate-IsSound sc h = record {
  has_id = not_empty sc.id (ground arith);
  no_slash = ground arith;
  no_space = ground arith;
  has_name = not_empty sc.name (ground arith);
  has_command = not_empty sc.command (ground arith);
}

pub IsSound-validate : (sc : Shortcut) → IsSound sc → validate sc ≡ ok tt
unfolding validate
IsSound-validate sc h = ground arith

abbrev pub among : Bytes → List Bytes → Bool
among k [] = false
among k (i ∷ is) = eq_bytes i k || among k is

-- An index that lists `scs`: their ids in order, each with its shortcut and none twice.
pub record Indexes (x : Index) (scs : List Shortcut) : Type 0 where
  pub picked : pick x.next x.sequence ≡ scs
  pub sound : All IsSound scs
  pub same_keys : (k : Bytes) → has k x.next ≡ among k x.sequence

pick-append :
    (m : List (Bytes × Shortcut)) (xs ys : List Bytes) → pick m (xs ++ ys) ≡ pick m xs ++ pick m ys
unfolding pick
pick-append m [] ys = refl
pick-append m (x ∷ xs) ys = ground (arith, pick-append m xs ys)

pick-insert :
    (m : List (Bytes × Shortcut)) (k : Bytes) (sc : Shortcut) (xs : List Bytes)
    → among k xs ≡ false
    → pick (insert k sc m) xs ≡ pick m xs
unfolding pick
pick-insert m k sc [] h = refl
pick-insert m k sc (x ∷ xs) h =
    ground
      (arith, lookup-insert k x sc m, eq_bytes_iff k x, eq_bytes_iff x k, pick-insert m k sc xs)

among-append : (k : Bytes) (xs ys : List Bytes) → among k (xs ++ ys) ≡ (among k xs || among k ys)
among-append k [] ys = refl
among-append k (x ∷ xs) ys = ground (arith, among-append k xs ys)

pick_self :
    (m : List (Bytes × Shortcut)) (sc : Shortcut) → pick (insert sc.id sc m) (sc.id ∷ []) ≡ sc ∷ []
unfolding pick
pick_self m sc = ground (arith, lookup-insert_self sc.id sc m)

pick_new :
    (m : List (Bytes × Shortcut)) (sc : Shortcut) (xs : List Bytes)
    → among sc.id xs ≡ false
    → pick (insert sc.id sc m) (xs ++ sc.id ∷ []) ≡ pick m xs ++ sc ∷ []
pick_new m sc xs h =
    pick-append (insert sc.id sc m) xs (sc.id ∷ [])
    ∙ ap (λ z. z ++ pick (insert sc.id sc m) (sc.id ∷ [])) (pick-insert m sc.id sc xs h)
    ∙ ap (λ z. pick m xs ++ z) (pick_self m sc)

has_new :
    (m : List (Bytes × Shortcut)) (sc : Shortcut) (xs : List Bytes) (k : Bytes)
    → has k m ≡ among k xs
    → has k (insert sc.id sc m) ≡ among k (xs ++ sc.id ∷ [])
has_new m sc xs k h = ground (arith, lookup-insert sc.id k sc m, among-append k xs (sc.id ∷ []))

pub empty_index-Indexes : Indexes empty_index []
unfolding pick lookup
empty_index-Indexes = record { picked = refl; sound = tt; same_keys = λ k. refl }

-- What `index_one` leaves behind when it accepts a shortcut.
pub record Accepts (x y : Index) (sc : Shortcut) : Type 0 where
  pub valid : validate sc ≡ ok tt
  pub new : has sc.id x.next ≡ false
  pub next_is : y.next ≡ insert sc.id sc x.next
  pub sequence_is : y.sequence ≡ x.sequence ++ sc.id ∷ []

pub index_one-Accepts : (x y : Index) (sc : Shortcut) → index_one x sc ≡ ok y → Accepts x y sc
unfolding index_one
index_one-Accepts x y sc e = elim (Result-cases (validate sc)) [
  | inr (f, bad) ↦ absurd (ground arith)
  | inl (tt, good) ↦ elim (Bool-cases (has sc.id x.next)) [
    | inl twice ↦ absurd (ground arith)
    | inr fresh ↦ record {
      valid = good;
      new = fresh;
      next_is = ground arith;
      sequence_is = ground arith;
    }
  ]
]

index_one-Indexes :
    (x y : Index) (scs : List Shortcut) (sc : Shortcut)
    → Indexes x scs
    → index_one x sc ≡ ok y
    → Indexes y (scs ++ sc ∷ [])
index_one-Indexes x y scs sc h e =
    let a = index_one-Accepts x y sc e in
    record {
      picked =
          ap (λ m. pick m y.sequence) a.next_is
          ∙ ap (pick (insert sc.id sc x.next)) a.sequence_is
          ∙ pick_new x.next sc x.sequence (sym (h.same_keys sc.id) ∙ a.new)
          ∙ ap (λ z. z ++ sc ∷ []) h.picked;
      sound = All-append IsSound scs (sc ∷ []) h.sound (validate-IsSound sc a.valid, tt);
      same_keys = λ k.
          ap (has k) a.next_is
          ∙ has_new x.next sc x.sequence k (h.same_keys k)
          ∙ ap (among k) (sym a.sequence_is);
    }

pub index_all-Indexes :
    (i : ℕ) (x y : Index) (scs more : List Shortcut)
    → Indexes x scs
    → index_all i x more ≡ ok y
    → Indexes y (scs ++ more)
unfolding index_all
index_all-Indexes i x y scs [] h e =
    subst (Indexes y) (sym (append-nil scs)) (subst (λ z. Indexes z scs) (ground arith) h)
index_all-Indexes i x y scs (sc ∷ more) h e = elim (Result-cases (index_one x sc)) [
  | inr (f, bad) ↦ absurd (ground arith)
  | inl (z, good) ↦ subst (Indexes y) (append_assoc scs (sc ∷ []) more) (
      index_all-Indexes (i + 1) z y (scs ++ sc ∷ []) more (index_one-Indexes x z scs sc h good)
        (ground arith))
]

-- Unless `replace` refuses a shortcut, whatever becomes of the write, each trimmed shortcut is sound
-- and the store lists the trimmed shortcuts in the order of the call.
list-replace :
    (g : Grants) (tmp : Bytes) (disk : Disk (List Shortcut)) (s : Store) (scs : List Shortcut)
    → ((f : ℕ × Flaw) → (replace g tmp disk s scs).2 ≢ err (invalid_shortcut f))
    → All IsSound (map trim_shortcut scs)
      × (list (replace g tmp disk s scs).0 ≡ map trim_shortcut scs)
unfolding replace list
list-replace g tmp disk s scs accepted =
    elim (Result-cases (index_all 0 empty_index (map trim_shortcut scs))) [
      | inr (f, bad) ↦ absurd (accepted f (ground arith))
      | inl (x, good) ↦
          let x-ok =
            index_all-Indexes 0 empty_index x [] (map trim_shortcut scs) empty_index-Indexes good in
          (x-ok.sound, ground (arith, x-ok.picked))
    ]

-- When a shortcut of the call is refused, the store and the disk stay as they were.
replace-refused :
    (g : Grants) (tmp : Bytes) (disk : Disk (List Shortcut)) (s : Store) (scs : List Shortcut)
    (f : ℕ × Flaw)
    → (replace g tmp disk s scs).2 ≡ err (invalid_shortcut f)
    → ((replace g tmp disk s scs).0 ≡ s) × ((replace g tmp disk s scs).1 ≡ disk)
unfolding replace
replace-refused g tmp disk s scs f h =
    elim (Result-cases (index_all 0 empty_index (map trim_shortcut scs))) [
      | inr (f', bad) ↦ ground arith
      | inl (x, good) ↦ absurd (ground arith)
    ]

-- A stored id survives the prefix that the catalog puts in front of it.
normalize_id-prefixed_id : (id : Bytes) → normalize_id (prefixed_id id) ≡ (id, true)
unfolding normalize_id prefixed_id has_prefix
normalize_id-prefixed_id id = refl
