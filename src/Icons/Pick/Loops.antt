-- ===== src/Icons/Pick/Loops.antt =====
-- The loops of `pickCandidate`: what each of them finds in a list in the order of the bases.
use remote_app_start_my_linu.Prelude.{
  ◌≤◌, Bool, true, false, ◌&&◌, List, [], ◌∷◌, none, some, ℤ, eq_ℤ, ◌≡◌, ◌≢◌, ◌⊎◌, inl, inr, refl,
  subst, arith, Bool-cases, All, All-weaken, In,
}
use remote_app_start_my_linu.Prelude.Sort.{IsSorted}
use remote_app_start_my_linu.Icons.Pick.{IconCandidate, less_base, first_of_size, best_by}

the_same : (a b : IconCandidate) → (some a ≡ some b) → a ≡ b
the_same a b h = ground arith

-- In a list in the order of the bases, the first of a size has the least base of those of the size.
pub first_of_size-least :
    (n : ℤ) (cs : List IconCandidate) (c : IconCandidate)
    → IsSorted less_base cs
    → first_of_size n cs ≡ some c
    → In c cs
      × (eq_ℤ c.size n ≡ true)
      × All (λ d. eq_ℤ d.size n ≡ true → c.base_idx ≤ d.base_idx) cs
unfolding first_of_size
first_of_size-least n [] c s h = absurd (ground arith)
first_of_size-least n (x ∷ cs) c s h = elim (Bool-cases (eq_ℤ x.size n)) [
  | inl same ↦
      let e = the_same x c (ground arith) in
      subst
        (λ z.
          In z (x ∷ cs)
          × (eq_ℤ z.size n ≡ true)
          × All (λ d. eq_ℤ d.size n ≡ true → z.base_idx ≤ d.base_idx) (x ∷ cs))
        e
        (
          inl refl,
          same,
          (
            λ _. omega arith,
            All-weaken (λ y. less_base y x ≡ false) _ cs (λ d k _. ground arith) s.0,
          ),
        )
  | inr other ↦
      let r = first_of_size-least n cs c s.1 (ground arith) in
      (inr r.0, r.1, (λ k. ground arith, r.2))
]

pub first_of_size-none :
    (n : ℤ) (cs : List IconCandidate)
    → first_of_size n cs ≡ none
    → All (λ d. eq_ℤ d.size n ≡ false) cs
unfolding first_of_size
first_of_size-none n [] h = tt
first_of_size-none n (x ∷ cs) h = ground (arith, first_of_size-none n cs)

-- `d` is no better than `c`: not closer, and of no lesser base where neither is closer.
abbrev pub NoBetter :
    (IconCandidate → IconCandidate → Bool) → IconCandidate → IconCandidate → Type 0
NoBetter closer c d = (closer d c ≡ false) × (closer c d ≡ false → c.base_idx ≤ d.base_idx)

module _ (usable : IconCandidate → Bool) (closer : IconCandidate → IconCandidate → Bool)
    (asymm : (a b : IconCandidate) → closer a b ≡ true → closer b a ≡ false)
    (negtrans : (a b c : IconCandidate)
      → closer b a ≡ false
      → closer c b ≡ false
      → closer c a ≡ false) where
  NoBetter-trans :
      (a b c : IconCandidate) → NoBetter closer a b → NoBetter closer b c → NoBetter closer a c
  NoBetter-trans a b c g h = (
    negtrans a b c g.0 h.0,
    λ k. omega (arith, g.1 (negtrans b c a h.0 k), h.1 (negtrans c a b k g.0)),
  )

  best_by-least :
      (b : IconCandidate) (cs : List IconCandidate) (c : IconCandidate)
      → usable b ≡ true
      → All (λ y. less_base y b ≡ false) cs
      → IsSorted less_base cs
      → best_by usable closer (some b) cs ≡ some c
      → ((c ≡ b) ⊎ In c cs)
        × (usable c ≡ true)
        × NoBetter closer c b
        × All (λ d. usable d ≡ true → NoBetter closer c d) cs
  unfolding best_by
  best_by-least b [] c u first s h =
      let e = the_same b c h in
      subst (λ z. ((z ≡ b) ⊎ ⊥) × (usable z ≡ true) × NoBetter closer z b × Unit) e
        (inl refl, u, (ground (arith, asymm b b), λ _. omega arith), tt)
  best_by-least b (x ∷ cs) c u first s h = elim (Bool-cases (usable x && closer x b)) [
    | inl taken ↦
        let r = best_by-least x cs c (ground arith) s.0 s.1 (ground arith) in
        (
          inr r.0,
          r.1,
          NoBetter-trans c x b r.2 (ground (arith, asymm x b), λ k. absurd (ground arith)),
          (λ _. r.2, r.3),
        )
    | inr kept ↦
        let r = best_by-least b cs c u first.1 s.1 (ground arith) in
        (
          ground arith,
          r.1,
          r.2,
          (λ v. NoBetter-trans c b x r.2 (ground arith, λ _. ground arith), r.3),
        )
  ]

  -- The loop from nothing: the first that is usable is taken, and then as above.
  pub best_by-Best :
      (cs : List IconCandidate) (c : IconCandidate)
      → IsSorted less_base cs
      → best_by usable closer none cs ≡ some c
      → In c cs × (usable c ≡ true) × All (λ d. usable d ≡ true → NoBetter closer c d) cs
  unfolding best_by
  best_by-Best [] c s h = absurd (ground arith)
  best_by-Best (x ∷ cs) c s h = elim (Bool-cases (usable x)) [
    | inl u ↦ let r = best_by-least x cs c u s.0 s.1 (ground arith) in (r.0, r.1, (λ _. r.2, r.3))
    | inr w ↦
        let r = best_by-Best cs c s.1 (ground arith) in
        (inr r.0, r.1, (λ v. absurd (ground arith), r.2))
  ]

  best_by-some :
      (b : IconCandidate) (cs : List IconCandidate) → best_by usable closer (some b) cs ≢ none
  unfolding best_by
  best_by-some b [] h = ground arith
  best_by-some b (x ∷ cs) h = elim (Bool-cases (usable x && closer x b)) [
    | inl taken ↦ best_by-some x cs (ground arith)
    | inr kept ↦ best_by-some b cs (ground arith)
  ]

  pub best_by-none :
      (cs : List IconCandidate)
      → best_by usable closer none cs ≡ none
      → All (λ d. usable d ≡ false) cs
  unfolding best_by
  best_by-none [] h = tt
  best_by-none (x ∷ cs) h = elim (Bool-cases (usable x)) [
    | inl u ↦ absurd (best_by-some x cs (ground arith))
    | inr w ↦ (w, best_by-none cs (ground arith))
  ]
