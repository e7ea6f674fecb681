-- ===== src/Icons/Pick/Best.antt =====
-- The candidate that is chosen against an order of preference that is stated apart from the code.
use remote_app_start_my_linu.Prelude.{
  ℕ, ◌<◌, ◌≤◌, Bool, true, false, not, ◌&&◌, ◌||◌, ◌==◌, ltb, if◌then◌else◌, List, Option, none,
  some, ℤ, eq_ℤ, ltb_ℤ_asymm, not_below_trans, ◌≡◌, inl, inr, arith, Option-cases, All, All-weaken,
  All-In, All-zip, In,
}
use remote_app_start_my_linu.Prelude.Sort.{
  sort_by, IsSorted, sort_by-IsSorted, sort_by-In, All-sort_by,
}
use remote_app_start_my_linu.Icons.Pick.Loops.{
  first_of_size-least, first_of_size-none, NoBetter, best_by-Best, best_by-none,
}
use remote_app_start_my_linu.Icons.Pick.{
  IconCandidate, scalable_size, less_base, first_of_size, best_by, is_big, is_small, smaller,
  larger, or_else, choose,
}

-- How good a candidate is: of the preferred size, scalable, larger, smaller, of no use.
abbrev pub tier : ℤ → IconCandidate → ℕ
tier preferred c =
    if eq_ℤ c.size preferred
    then 0
    else if eq_ℤ c.size scalable_size
    then 1
    else if is_big preferred c
    then 2
    else if is_small preferred c
    then 3
    else 4

-- Within a tier, which size is nearer to the preferred one.
abbrev nearer : ℕ → IconCandidate → IconCandidate → Bool
nearer t d c = if t == 2 then smaller d c else if t == 3 then larger d c else false

-- `d` is to be preferred to `c`: by its tier, then by its size, then by its base directory.
abbrev beats : ℤ → IconCandidate → IconCandidate → Bool
beats preferred d c =
    ltb (tier preferred d) (tier preferred c)
    || (tier preferred d == tier preferred c
        && (nearer (tier preferred c) d c
            || (not (nearer (tier preferred c) c d) && ltb d.base_idx c.base_idx)))

module _ (preferred : ℤ) (cs : List IconCandidate) where
  -- What the code promises of the list it is given.
  abbrev pub IsBest : Option IconCandidate → Type 0
  IsBest none = All (λ d. tier preferred d ≡ 4) cs
  IsBest (some c) = In c cs × (tier preferred c < 4) × All (λ d. beats preferred d c ≡ false) cs

  choose_exact :
      (c : IconCandidate)
      → In c cs
        × (eq_ℤ c.size preferred ≡ true)
        × All (λ d. eq_ℤ d.size preferred ≡ true → c.base_idx ≤ d.base_idx) cs
      → IsBest (some c)
  choose_exact c (m, e, h) = (m, ground arith, All-weaken _ _ cs (λ d k. ground arith) h)

  choose_scalable :
      (c : IconCandidate)
      → All (λ d. eq_ℤ d.size preferred ≡ false) cs
      → In c cs
        × (eq_ℤ c.size scalable_size ≡ true)
        × All (λ d. eq_ℤ d.size scalable_size ≡ true → c.base_idx ≤ d.base_idx) cs
      → IsBest (some c)
  choose_scalable c n (m, e, h) =
      let f = All-In (λ d. eq_ℤ d.size preferred ≡ false) c cs m n in
      (m, ground arith, All-weaken _ _ cs (λ d k. ground arith) (All-zip _ _ cs n h))

  -- The loops' steps: no candidate is of the preferred size, and none is scalable.
  choose_larger :
      (c : IconCandidate)
      → All (λ d. eq_ℤ d.size preferred ≡ false) cs
      → All (λ d. eq_ℤ d.size scalable_size ≡ false) cs
      → In c cs
        × (is_big preferred c ≡ true)
        × All (λ d. is_big preferred d ≡ true → NoBetter smaller c d) cs
      → IsBest (some c)
  choose_larger c n k (m, e, h) =
      let f = All-In (λ d. eq_ℤ d.size preferred ≡ false) c cs m n in
      let g = All-In (λ d. eq_ℤ d.size scalable_size ≡ false) c cs m k in
      (
        m,
        ground arith,
        All-weaken _ _ cs (λ d k. ground arith) (All-zip _ _ cs n (All-zip _ _ cs k h)),
      )

  choose_smaller :
      (c : IconCandidate)
      → All (λ d. eq_ℤ d.size preferred ≡ false) cs
      → All (λ d. eq_ℤ d.size scalable_size ≡ false) cs
      → All (λ d. is_big preferred d ≡ false) cs
      → In c cs
        × (is_small preferred c ≡ true)
        × All (λ d. is_small preferred d ≡ true → NoBetter larger c d) cs
      → IsBest (some c)
  choose_smaller c n k b (m, e, h) =
      let f = All-In (λ d. eq_ℤ d.size preferred ≡ false) c cs m n in
      let g = All-In (λ d. eq_ℤ d.size scalable_size ≡ false) c cs m k in
      let j = All-In (λ d. is_big preferred d ≡ false) c cs m b in
      (
        m,
        ground arith,
        All-weaken _ _ cs (λ d k. ground arith)
            (All-zip _ _ cs n (All-zip _ _ cs k (All-zip _ _ cs b h))),
      )

  choose_none :
      All (λ d. eq_ℤ d.size preferred ≡ false) cs
      → All (λ d. eq_ℤ d.size scalable_size ≡ false) cs
      → All (λ d. is_big preferred d ≡ false) cs
      → All (λ d. is_small preferred d ≡ false) cs
      → IsBest none
  choose_none n k b m =
      All-weaken _ _ cs (λ d k. ground arith)
        (All-zip _ _ cs n (All-zip _ _ cs k (All-zip _ _ cs b m)))

smaller_asymm : (a b : IconCandidate) → smaller a b ≡ true → smaller b a ≡ false
smaller_asymm a b = ltb_ℤ_asymm a.size b.size

larger_asymm : (a b : IconCandidate) → larger a b ≡ true → larger b a ≡ false
larger_asymm a b = ltb_ℤ_asymm b.size a.size

smaller_trans :
    (a b c : IconCandidate) → smaller b a ≡ false → smaller c b ≡ false → smaller c a ≡ false
smaller_trans a b c = not_below_trans a.size b.size c.size

larger_trans :
    (a b c : IconCandidate) → larger b a ≡ false → larger c b ≡ false → larger c a ≡ false
larger_trans a b c h k = not_below_trans c.size b.size a.size k h

-- The four steps, on a list in the order of the bases.
abbrev pub steps : ℤ → List IconCandidate → Option IconCandidate
steps preferred sorted = or_else (first_of_size preferred sorted) (
    or_else (first_of_size scalable_size sorted) (
      or_else (best_by (is_big preferred) smaller none sorted)
        (best_by (is_small preferred) larger none sorted)))

loops-IsBest :
    (preferred : ℤ) (cs : List IconCandidate)
    → IsSorted less_base cs
    → All (λ d. eq_ℤ d.size preferred ≡ false) cs
    → All (λ d. eq_ℤ d.size scalable_size ≡ false) cs
    → IsBest preferred cs (
        or_else
          (best_by (is_big preferred) smaller none cs)
          (best_by (is_small preferred) larger none cs))
loops-IsBest preferred cs s n k = elim (Option-cases (best_by (is_big preferred) smaller none cs)) [
  | inr (c, e) ↦ rw e (
      choose_larger preferred cs c n k
        (best_by-Best (is_big preferred) smaller smaller_asymm smaller_trans cs c s e))
  | inl e ↦
      let b = best_by-none (is_big preferred) smaller smaller_asymm smaller_trans cs e in
      elim (Option-cases (best_by (is_small preferred) larger none cs)) [
        | inr (c, f) ↦
            rw (e, f)
              (choose_smaller preferred cs c n k b
                (best_by-Best (is_small preferred) larger larger_asymm larger_trans cs c s f))
        | inl f ↦
            rw (e, f)
              (choose_none preferred cs n k b
                (best_by-none (is_small preferred) larger larger_asymm larger_trans cs f))
      ]
]

steps-IsBest :
    (preferred : ℤ) (cs : List IconCandidate)
    → IsSorted less_base cs
    → IsBest preferred cs (steps preferred cs)
steps-IsBest preferred cs s = elim (Option-cases (first_of_size preferred cs)) [
  | inr (c, e) ↦ rw e (choose_exact preferred cs c (first_of_size-least preferred cs c s e))
  | inl e ↦
      let n = first_of_size-none preferred cs e in
      elim (Option-cases (first_of_size scalable_size cs)) [
        | inr (c, f) ↦
            rw (e, f)
              (choose_scalable preferred cs c n (first_of_size-least scalable_size cs c s f))
        | inl f ↦ rw (e, f) (loops-IsBest preferred cs s n (first_of_size-none scalable_size cs f))
      ]
]

less_base_asymm : (a b : IconCandidate) → less_base a b ≡ true → less_base b a ≡ false
less_base_asymm a b h = ground arith

less_base_trans :
    (a b c : IconCandidate) → less_base b a ≡ false → less_base c b ≡ false → less_base c a ≡ false
less_base_trans a b c h k = ground arith

IsBest-unsorted :
    (preferred : ℤ) (cs : List IconCandidate) (o : Option IconCandidate)
    → IsBest preferred (sort_by less_base cs) o
    → IsBest preferred cs o
IsBest-unsorted preferred cs none h = All-sort_by less_base _ cs h
IsBest-unsorted preferred cs (some c) (m, t, h) =
    (sort_by-In less_base c cs m, t, All-sort_by less_base _ cs h)

-- The candidate that the four steps choose is one of those given and of use, and none of those
-- given is to be preferred to it, by the rank of its size (the preferred size, scalable, larger,
-- smaller), then by which size is nearer, then by which base directory comes first. Nothing is
-- chosen only when no candidate is of use.
pub choose-IsBest :
    (preferred : ℤ) (cs : List IconCandidate) → IsBest preferred cs (choose preferred cs)
unfolding choose
choose-IsBest preferred cs = IsBest-unsorted preferred cs (steps preferred (sort_by less_base cs)) (
    steps-IsBest preferred (sort_by less_base cs)
      (sort_by-IsSorted less_base less_base_asymm less_base_trans cs))
