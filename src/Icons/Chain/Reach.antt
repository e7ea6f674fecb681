-- ===== src/Icons/Chain/Reach.antt =====
-- The themes that a search has to meet, and the facts on membership that it needs.
use remote_app_start_my_linu.Prelude.{
  ℕ, suc, ◌<◌, ◌≤◌, if◌then◌else◌, length, some, Bytes, eq_bytes_iff, true, false, ◌||◌, List, [],
  ◌∷◌, ◌++◌, ◌≡◌, ◌≢◌, ◌↔◌, ◌⊎◌, refl, arith,
}
use remote_app_start_my_linu.Prelude.Assoc.{lookup}
use remote_app_start_my_linu.Icons.ThemeIndex.{ThemeIndex}
use remote_app_start_my_linu.Desktop.Scan.{contains}
use remote_app_start_my_linu.Icons.Chain.{Themes, parents}

-- The names that lead from a theme over its parents, none of them empty.
pub data Reach (themes : Themes) (start : Bytes) : Bytes → Type 0 where
  here : start ≢ [] → Reach themes start start
  step :
      {u v : Bytes}
      → Reach themes start u
      → contains v (parents themes u) ≡ true
      → v ≢ []
      → Reach themes start v

pub contains-append :
    (k : Bytes) (xs ys : List Bytes) → contains k (xs ++ ys) ≡ (contains k xs || contains k ys)
unfolding contains
contains-append k [] ys = refl
contains-append k (x ∷ xs) ys = ground (arith, contains-append k xs ys)

pub contains-cons :
    (k x : Bytes) (xs : List Bytes)
    → (contains k (x ∷ xs) ≡ true) ↔ ((k ≡ x) ⊎ (contains k xs ≡ true))
unfolding contains
contains-cons k x xs = (ground (arith, eq_bytes_iff x k), ground (arith, eq_bytes_iff x k))

pub contains_self : (k : Bytes) → contains k (k ∷ []) ≡ true
unfolding contains
contains_self k = ground (arith, eq_bytes_iff k k)

pub contains-singleton : (k j : Bytes) → contains k (j ∷ []) ≡ true → k ≡ j
unfolding contains
contains-singleton k j h = ground (arith, eq_bytes_iff j k)

-- No name twice.
abbrev pub Unique : List Bytes → Type 0
Unique [] = Unit
Unique (x ∷ xs) = (contains x xs ≡ false) × Unique xs

pub Unique-append :
    (xs : List Bytes) (x : Bytes) → Unique xs → contains x xs ≡ false → Unique (xs ++ x ∷ [])
unfolding contains
Unique-append [] x u h = (refl, tt)
Unique-append (y ∷ ys) x u h = (
  ground (arith, contains-append y ys (x ∷ []), eq_bytes_iff x y, eq_bytes_iff y x),
  Unique-append ys x u.1 (ground arith),
)

-- How many entries of the map are under names that are not in the list.
abbrev pub unseen : List Bytes → Themes → ℕ
unseen order [] = 0
unseen order ((name, x) ∷ themes) =
    if contains name order then unseen order themes else suc (unseen order themes)

pub unseen-le :
    (order more : List Bytes) (themes : Themes)
    → ((k : Bytes) → contains k order ≡ true → contains k more ≡ true)
    → unseen more themes ≤ unseen order themes
unseen-le order more [] grows = omega arith
unseen-le order more ((name, x) ∷ themes) grows =
    ground (arith, grows name, unseen-le order more themes grows)

pub unseen-visit :
    (order : List Bytes) (name : Bytes) (x : ThemeIndex) (themes : Themes)
    → lookup name themes ≡ some x
    → contains name order ≡ false
    → unseen (order ++ name ∷ []) themes < unseen order themes
unfolding lookup
unseen-visit order name x [] found new = absurd (ground arith)
unseen-visit order name x ((j, y) ∷ themes) found new = ground (
  arith,
  eq_bytes_iff j name,
  contains-append j order (name ∷ []),
  contains_self name,
  unseen-le order (order ++ name ∷ []) themes
      (λ k h. ground (arith, contains-append k order (name ∷ []))),
  unseen-visit order name x themes,
)

pub unseen_le_length : (order : List Bytes) (themes : Themes) → unseen order themes ≤ length themes
unseen_le_length order [] = omega arith
unseen_le_length order ((name, x) ∷ themes) = ground (arith, unseen_le_length order themes)
