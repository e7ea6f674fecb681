-- ===== src/Prelude/Assoc.antt =====
-- A Go `map[string]V` as an association list. Assignment to a key that is there keeps its place, a
-- new key goes to the end; nothing that is proved depends on the place of a key.
pub mod Distinct
use Prim.Native.Nat.{ℕ}
use mathlib.Core.Path.{◌≡◌, refl, ap}
use mathlib.Core.Bool.{Bool, true, false}
use mathlib.Core.List.{List, [], ◌∷◌, ◌++◌}
use mathlib.Core.Option.{Option, none, some}
use native.Mathlib.Omega.{arith}
use remote_app_start_my_linu.Prelude.Tests.{if◌then◌else◌, Bool-cases}
use remote_app_start_my_linu.Prelude.ByteStrings.{Bytes, eq_bytes, eq_bytes_iff}

module _ {ℓ} {V : Type ℓ} where
  unfoldable pub lookup : Bytes → List (Bytes × V) → Option V
  lookup key [] = none
  lookup key ((j, found) ∷ rest) = if eq_bytes j key then some found else lookup key rest

  unfoldable pub insert : Bytes → V → List (Bytes × V) → List (Bytes × V)
  insert key new [] = (key, new) ∷ []
  insert key new ((j, old) ∷ rest) =
      if eq_bytes j key then (key, new) ∷ rest else (j, old) ∷ insert key new rest

  unfoldable pub delete : Bytes → List (Bytes × V) → List (Bytes × V)
  delete k [] = []
  delete k ((j, w) ∷ m) = if eq_bytes j k then delete k m else (j, w) ∷ delete k m

  abbrev pub has : Bytes → List (Bytes × V) → Bool
  has k m = elim (lookup k m) [ none ↦ false | some v ↦ true ]

  unfoldable pub keys : List (Bytes × V) → List Bytes
  keys [] = []
  keys ((k, v) ∷ m) = k ∷ keys m

  unfoldable pub values : List (Bytes × V) → List V
  values [] = []
  values ((k, v) ∷ m) = v ∷ values m

  pub lookup-insert :
      (k j : Bytes) (new : V) (rest : List (Bytes × V))
      → lookup j (insert k new rest) ≡ (if eq_bytes k j then some new else lookup j rest)
  unfolding lookup insert
  lookup-insert k j new [] = refl
  lookup-insert k j new ((i, old) ∷ rest) =
      ground
        (arith, eq_bytes_iff k j, eq_bytes_iff i k, eq_bytes_iff i j, lookup-insert k j new rest)

  pub lookup-delete :
      (k j : Bytes) (m : List (Bytes × V))
      → lookup j (delete k m) ≡ (if eq_bytes k j then none else lookup j m)
  unfolding lookup delete
  lookup-delete k j [] = ground arith
  lookup-delete k j ((i, w) ∷ m) =
      ground (arith, eq_bytes_iff k j, eq_bytes_iff i k, eq_bytes_iff i j, lookup-delete k j m)

  pub lookup-insert_self :
      (k : Bytes) (v : V) (m : List (Bytes × V)) → lookup k (insert k v m) ≡ some v
  lookup-insert_self k v m = ground (arith, lookup-insert k k v m, eq_bytes_iff k k)

  lookup-insert_ne :
      (k j : Bytes) (v : V) (m : List (Bytes × V))
      → eq_bytes k j ≡ false
      → lookup j (insert k v m) ≡ lookup j m
  lookup-insert_ne k j v m h = ground (arith, lookup-insert k j v m)
