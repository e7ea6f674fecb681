-- ===== src/Prelude/Sort.antt =====
-- `sort.Strings` and `sort.SliceStable`: a stable insertion sort, and the order of Go strings.
use mathlib.Core.Path.{◌≡◌, refl}
use mathlib.Core.Logic.{inl, inr}
use mathlib.Core.Bool.{Bool, true, false}
use mathlib.Core.List.{List, [], ◌∷◌, Perm}
use mathlib.Core.List.Perm
use native.Mathlib.Omega.{arith}
use remote_app_start_my_linu.Prelude.Tests.{◌==◌, ltb, if◌then◌else◌, Bool-cases}
use remote_app_start_my_linu.Prelude.ByteStrings.{Bytes}
use remote_app_start_my_linu.Prelude.Lists.{All, All-weaken, In}

-- `a < b` on Go strings.
unfoldable pub lt_bytes : Bytes → Bytes → Bool
lt_bytes [] [] = false
lt_bytes [] (y ∷ ys) = true
lt_bytes (x ∷ xs) [] = false
lt_bytes (x ∷ xs) (y ∷ ys) = if ltb x y then true else if x == y then lt_bytes xs ys else false

pub lt_bytes_trans :
    (a b c : Bytes) → lt_bytes a b ≡ true → lt_bytes b c ≡ true → lt_bytes a c ≡ true
unfolding lt_bytes
lt_bytes_trans [] (y ∷ ys) (z ∷ zs) h k = refl
lt_bytes_trans (x ∷ xs) (y ∷ ys) (z ∷ zs) h k = ground (arith, lt_bytes_trans xs ys zs)
lt_bytes_trans _ _ _ h k = ground arith

pub lt_bytes_asymm : (a b : Bytes) → lt_bytes a b ≡ true → lt_bytes b a ≡ false
unfolding lt_bytes
lt_bytes_asymm [] (y ∷ ys) h = refl
lt_bytes_asymm (x ∷ xs) (y ∷ ys) h = ground (arith, lt_bytes_asymm xs ys)
lt_bytes_asymm _ _ h = ground arith

pub lt_bytes_total : (a b : Bytes) → lt_bytes a b ≡ false → lt_bytes b a ≡ false → a ≡ b
unfolding lt_bytes
lt_bytes_total [] [] h k = refl
lt_bytes_total (x ∷ xs) (y ∷ ys) h k = ground (arith, lt_bytes_total xs ys)
lt_bytes_total _ _ h k = ground arith

module _ {ℓ} {A : Type ℓ} (less : A → A → Bool) where
  unfoldable pub insert_by : A → List A → List A
  insert_by x [] = x ∷ []
  insert_by x (y ∷ ys) = if less y x then y ∷ insert_by x ys else x ∷ y ∷ ys

  unfoldable pub sort_by : List A → List A
  unfolding insert_by
  sort_by [] = []
  sort_by (x ∷ xs) = insert_by x (sort_by xs)

  insert_by-perm : (x : A) (ys : List A) → Perm (insert_by x ys) (x ∷ ys)
  unfolding insert_by
  insert_by-perm x [] = Perm.refl _
  insert_by-perm x (y ∷ ys) = elim (Bool-cases (less y x)) [
    | inl e ↦ rw e (Perm.trans (Perm.cons y (insert_by-perm x ys)) (Perm.swap x y ys))
    | inr e ↦ rw e (Perm.refl _)
  ]

  pub sort_by-perm : (xs : List A) → Perm (sort_by xs) xs
  unfolding sort_by
  sort_by-perm [] = Perm.refl []
  sort_by-perm (x ∷ xs) = Perm.trans (insert_by-perm x (sort_by xs)) (Perm.cons x (sort_by-perm xs))

  -- Each element is not above the next.
  abbrev pub IsSorted : List A → Type 0
  IsSorted [] = Unit
  IsSorted (x ∷ xs) = All (λ y. less y x ≡ false) xs × IsSorted xs

  pub insert_by-All :
      (P : A → Type 0) (x : A) (ys : List A) → P x → All P ys → All P (insert_by x ys)
  unfolding insert_by
  insert_by-All P x [] p h = (p, tt)
  insert_by-All P x (y ∷ ys) p h = ground (arith, insert_by-All P x ys p h.1)

  module _ (asymm : (a b : A) → less a b ≡ true → less b a ≡ false)
      (trans : (a b c : A) → less b a ≡ false → less c b ≡ false → less c a ≡ false) where
    insert_by-IsSorted : (x : A) (ys : List A) → IsSorted ys → IsSorted (insert_by x ys)
    unfolding insert_by
    insert_by-IsSorted x [] h = (tt, tt)
    insert_by-IsSorted x (y ∷ ys) (above, h) = elim (Bool-cases (less y x)) [
      | inl e ↦ rw e (
        insert_by-All (λ z. less z y ≡ false) x ys (asymm y x e) above,
        insert_by-IsSorted x ys h,
      )
      | inr e ↦ rw e (
        (
          e,
          All-weaken (λ z. less z y ≡ false) (λ z. less z x ≡ false) ys (λ z q. trans x y z e q)
              above,
        ),
        (above, h),
      )
    ]

    pub sort_by-IsSorted : (xs : List A) → IsSorted (sort_by xs)
    unfolding sort_by
    sort_by-IsSorted [] = tt
    sort_by-IsSorted (x ∷ xs) = insert_by-IsSorted x (sort_by xs) (sort_by-IsSorted xs)

module _ {A : Type 0} (less : A → A → Bool) where
  insert_by-In : (x c : A) (ys : List A) → In c (insert_by less x ys) → In c (x ∷ ys)
  unfolding insert_by
  insert_by-In x c [] h = h
  insert_by-In x c (y ∷ ys) h = ground (arith, insert_by-In x c ys)

  pub sort_by-In : (c : A) (xs : List A) → In c (sort_by less xs) → In c xs
  unfolding sort_by
  sort_by-In c [] h = h
  sort_by-In c (x ∷ xs) h = ground (arith, insert_by-In x c (sort_by less xs), sort_by-In c xs)

  All-insert_by :
      (P : A → Type 0) (x : A) (ys : List A) → All P (insert_by less x ys) → All P (x ∷ ys)
  unfolding insert_by
  All-insert_by P x [] h = h
  All-insert_by P x (y ∷ ys) h = ground (arith, All-insert_by P x ys)

  pub All-sort_by : (P : A → Type 0) (xs : List A) → All P (sort_by less xs) → All P xs
  unfolding sort_by
  All-sort_by P [] h = tt
  All-sort_by P (x ∷ xs) h =
      let k = All-insert_by P x (sort_by less xs) h in (k.0, All-sort_by P xs k.1)
