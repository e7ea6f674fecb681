-- ===== src/Icons/Pick.antt =====
-- server/internal/icons/finder.go, `pickCandidate`: which of the files that were found is taken.
pub mod Loops
pub mod Best
use remote_app_start_my_linu.Prelude.{
  ℕ, Bytes, Bool, true, false, not, ◌&&◌, ◌||◌, ltb, if◌then◌else◌, List, [], ◌∷◌, Option, none,
  some, ℤ, pos, negsuc, is_positive, ltb_ℤ, eq_ℤ,
}
use remote_app_start_my_linu.Prelude.Sort.{sort_by}

pub data Format : Type 0 where
  svg png xpm unknown : Format

-- `scalableSize`
abbrev pub scalable_size : ℤ
scalable_size = negsuc 0

pub record IconCandidate : Type 0 where
  pub path : Bytes
  pub format : Format
  pub size : ℤ
  pub base_idx : ℕ

abbrev pub less_base : IconCandidate → IconCandidate → Bool
less_base a b = ltb a.base_idx b.base_idx

-- The first candidate of a size.
unfoldable pub first_of_size : ℤ → List IconCandidate → Option IconCandidate
first_of_size n [] = none
first_of_size n (c ∷ cs) = if eq_ℤ c.size n then some c else first_of_size n cs

-- The body of the loops for `bestBig` and `bestSmall`: `usable` is what they do not pass over.
abbrev better :
    (IconCandidate → Bool)
    → (IconCandidate → IconCandidate → Bool)
    → IconCandidate
    → Option IconCandidate
    → Option IconCandidate
better usable closer c none = if usable c then some c else none
better usable closer c (some b) = if usable c && closer c b then some c else some b

unfoldable pub best_by :
    (IconCandidate → Bool)
    → (IconCandidate → IconCandidate → Bool)
    → Option IconCandidate
    → List IconCandidate
    → Option IconCandidate
best_by usable closer best [] = best
best_by usable closer best (c ∷ cs) = best_by usable closer (better usable closer c best) cs

abbrev pub is_big : ℤ → IconCandidate → Bool
is_big preferred c = ltb_ℤ preferred c.size

abbrev pub is_small : ℤ → IconCandidate → Bool
is_small preferred c = is_positive c.size && ltb_ℤ c.size preferred

abbrev pub smaller : IconCandidate → IconCandidate → Bool
smaller c b = ltb_ℤ c.size b.size

abbrev pub larger : IconCandidate → IconCandidate → Bool
larger c b = ltb_ℤ b.size c.size

abbrev pub or_else : Option IconCandidate → Option IconCandidate → Option IconCandidate
or_else none other = other
or_else (some c) other = some c

-- The four steps, on the candidates in the order of their bases.
unfoldable pub choose : ℤ → List IconCandidate → Option IconCandidate
choose preferred cands =
    let sorted = sort_by less_base cands in
    or_else (first_of_size preferred sorted) (
      or_else (first_of_size scalable_size sorted) (
        or_else (best_by (is_big preferred) smaller none sorted)
          (best_by (is_small preferred) larger none sorted)))

abbrev pub file_of : Option IconCandidate → Option (Bytes × Format)
file_of none = none
file_of (some c) = some (c.path, c.format)

unfoldable pub pick_candidate : List IconCandidate → ℤ → Option (Bytes × Format)
unfolding choose
pick_candidate cands preferred = file_of (choose preferred cands)
