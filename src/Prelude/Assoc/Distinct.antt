-- ===== src/Prelude/Assoc/Distinct.antt =====
-- Maps whose keys are distinct, as those of a Go map are.
use remote_app_start_my_linu.Prelude.Tests.{Bool-cases}
use remote_app_start_my_linu.Prelude.ByteStrings.{Bytes, eq_bytes, eq_bytes_iff}
use remote_app_start_my_linu.Prelude.Assoc.{
  lookup, insert, delete, values, lookup-insert, lookup-delete,
}
use mathlib.Core.Path.{◌≡◌, refl, subst}
use mathlib.Core.Logic.{inl, inr}
use mathlib.Core.List.{List, [], ◌∷◌, ◌++◌}
use mathlib.Core.Option.{none, some}
use native.Mathlib.Omega.{arith}

module _ {ℓ} {V : Type ℓ} where
  abbrev pub Distinct : List (Bytes × V) → Type ℓ
  Distinct [] = Unit
  Distinct ((k, v) ∷ m) = (lookup k m ≡ none) × Distinct m

  pub insert-Distinct :
      (k : Bytes) (v : V) (m : List (Bytes × V)) → Distinct m → Distinct (insert k v m)
  unfolding insert lookup
  insert-Distinct k v [] d = (refl, tt)
  insert-Distinct k v ((j, w) ∷ m) d =
      ground (
        arith,
        eq_bytes_iff j k,
        eq_bytes_iff k j,
        lookup-insert k j v m,
        insert-Distinct k v m d.1,
      )

  pub delete-Distinct : (k : Bytes) (m : List (Bytes × V)) → Distinct m → Distinct (delete k m)
  unfolding delete lookup
  delete-Distinct k [] d = tt
  delete-Distinct k ((j, w) ∷ m) d =
      ground
        (arith, eq_bytes_iff j k, eq_bytes_iff k j, lookup-delete k j m, delete-Distinct k m d.1)

  -- A key that is not there is added at the end.
  pub insert_new :
      (k : Bytes) (v : V) (m : List (Bytes × V))
      → lookup k m ≡ none
      → insert k v m ≡ m ++ (k, v) ∷ []
  unfolding insert lookup
  insert_new k v [] h = refl
  insert_new k v ((j, w) ∷ m) h = ground (arith, insert_new k v m)

  values-append : (m n : List (Bytes × V)) → values (m ++ n) ≡ values m ++ values n
  unfolding values
  values-append [] n = refl
  values-append ((k, v) ∷ m) n = rw (values-append m n)

module _ {V : Type 0} where
  -- A property of every pair of a map.
  abbrev pub AllPairs : (Bytes → V → Type 0) → List (Bytes × V) → Type 0
  AllPairs P [] = Unit
  AllPairs P ((k, v) ∷ m) = P k v × AllPairs P m

  pub insert-AllPairs :
      (P : Bytes → V → Type 0) (k : Bytes) (v : V) (m : List (Bytes × V))
      → P k v
      → AllPairs P m
      → AllPairs P (insert k v m)
  unfolding insert
  insert-AllPairs P k v [] p h = (p, tt)
  insert-AllPairs P k v ((j, w) ∷ m) p h = ground (arith, insert-AllPairs P k v m p h.1)

  pub delete-AllPairs :
      (P : Bytes → V → Type 0) (k : Bytes) (m : List (Bytes × V))
      → AllPairs P m
      → AllPairs P (delete k m)
  unfolding delete
  delete-AllPairs P k [] h = tt
  delete-AllPairs P k ((j, w) ∷ m) h = ground (arith, delete-AllPairs P k m h.1)

  pub lookup-AllPairs :
      (P : Bytes → V → Type 0) (k : Bytes) (v : V) (m : List (Bytes × V))
      → AllPairs P m
      → lookup k m ≡ some v
      → P k v
  unfolding lookup
  lookup-AllPairs P k v [] h e = absurd (ground arith)
  lookup-AllPairs P k v ((j, w) ∷ m) h e =
      ground (arith, eq_bytes_iff j k, lookup-AllPairs P k v m h.1)

module _ {ℓ} {V : Type ℓ} where
  lookup_middle :
      (k : Bytes) (v : V) (m n : List (Bytes × V)) → lookup k (m ++ (k, v) ∷ n) ≡ none → ⊥
  unfolding lookup
  lookup_middle k v [] n h = absurd (ground (arith, eq_bytes_iff k k))
  lookup_middle k v ((j, w) ∷ m) n h = lookup_middle k v m n (ground arith)

  -- A key in the middle of distinct ones is new to those in front of it.
  pub Distinct-middle :
      (k : Bytes) (v : V) (m n : List (Bytes × V)) → Distinct (m ++ (k, v) ∷ n) → lookup k m ≡ none
  unfolding lookup
  Distinct-middle k v [] n d = refl
  Distinct-middle k v ((j, w) ∷ m) n d = elim (Bool-cases (eq_bytes j k)) [
    | inr other ↦ rw other (Distinct-middle k v m n d.1)
    | inl same ↦ absurd (
        lookup_middle k v m n
          (subst (λ i. lookup i (m ++ (k, v) ∷ n) ≡ none) ((eq_bytes_iff j k).0 same) d.0))
  ]
