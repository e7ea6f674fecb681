-- ===== src/Icons/Finder/First.antt =====
-- `Find`: which theme answers, and with which file.
use remote_app_start_my_linu.Prelude.{
  ℕ, Bytes, codes, eq_bytes, true, false, List, [], ◌∷◌, Option, none, some, ℤ, is_positive, ◌≡◌,
  ◌≢◌, ◌⊎◌, inl, inr, refl, subst, arith, Bool-cases, All, All-append,
}
use remote_app_start_my_linu.Desktop.FileTree.{Node, file, dir, Nodes, nil, cons, Root}
use remote_app_start_my_linu.Icons.Pick.{
  Format, unknown, svg, png, xpm, IconCandidate, scalable_size,
}
use remote_app_start_my_linu.Icons.Pick.Best.{IsBest}
use remote_app_start_my_linu.Icons.Size.{size_from_parts, first_size, parse_size_dir}
use remote_app_start_my_linu.Icons.Finder.{
  Finder, candidate_of, visit_icon, walk_icon, walk_icons, collect_from, dir_parts, is_wanted,
  format_from_ext,
}

-- A size that a directory can tell.
abbrev IsSize : ℤ → Type 0
IsSize n = (n ≡ scalable_size) ⊎ (is_positive n ≡ true)

first_size-IsSize : (ps : List Bytes) (n : ℤ) → first_size ps ≡ some n → IsSize n
unfolding first_size
first_size-IsSize [] n h = absurd (ground arith)
first_size-IsSize (p ∷ ps) n h = elim (Bool-cases (eq_bytes p (codes "scalable"))) [
  | inl e ↦ inl (ground arith)
  | inr e ↦ elim (Bool-cases (is_positive (parse_size_dir p))) [
    | inl g ↦
        let same : parse_size_dir p ≡ n = ground arith in
        inr (subst (λ z. is_positive z ≡ true) same g)
    | inr g ↦ first_size-IsSize ps n (ground arith)
  ]
]

size_from_parts-IsSize : (ps : List Bytes) (n : ℤ) → size_from_parts ps ≡ some n → IsSize n
unfolding size_from_parts
size_from_parts-IsSize ps n h = first_size-IsSize ps n (ground arith)

-- A candidate that can be served: of a known format and of a size.
abbrev IsUsable : IconCandidate → Type 0
IsUsable c = (c.format ≢ unknown) × IsSize c.size

candidate_of-IsUsable :
    (idx : ℕ) (path : Bytes) (format : Format) (o : Option ℤ)
    → ((n : ℤ) → o ≡ some n → IsSize n)
    → All IsUsable (candidate_of idx path format o)
unfolding candidate_of
candidate_of-IsUsable idx path format none h = tt
candidate_of-IsUsable idx path unknown (some n) h = tt
candidate_of-IsUsable idx path svg (some n) h = ((λ e. ground arith, h n refl), tt)
candidate_of-IsUsable idx path png (some n) h = ((λ e. ground arith, h n refl), tt)
candidate_of-IsUsable idx path xpm (some n) h = ((λ e. ground arith, h n refl), tt)

module _ (join : Bytes → Bytes → Bytes) (icon : Bytes) (idx : ℕ) where
  visit_icon-IsUsable :
      (path : Bytes) (rel : List Bytes) (name : Bytes)
      → All IsUsable (visit_icon join icon idx path rel name)
  unfolding visit_icon
  visit_icon-IsUsable path rel name = elim (Bool-cases (is_wanted icon name)) [
    | inl e ↦ rw e (
        candidate_of-IsUsable idx path (format_from_ext name) (size_from_parts (dir_parts rel))
          (size_from_parts-IsSize (dir_parts rel)))
    | inr e ↦ rw e tt
  ]

  mutual
    unfolding walk_icon walk_icons

    walk_icon-IsUsable :
        (n : Node) (path : Bytes) (rel : List Bytes)
        → All IsUsable (walk_icon join icon idx path rel n)
    walk_icon-IsUsable (file name r) path rel = visit_icon-IsUsable (join path name) rel name
    walk_icon-IsUsable (dir name true ns) path rel = walk_icons-IsUsable ns (join path name) _
    walk_icon-IsUsable (dir name false ns) path rel = tt

    walk_icons-IsUsable :
        (ns : Nodes) (path : Bytes) (rel : List Bytes)
        → All IsUsable (walk_icons join icon idx path rel ns)
    walk_icons-IsUsable nil path rel = tt
    walk_icons-IsUsable (cons n ns) path rel =
        All-append IsUsable _ _ (walk_icon-IsUsable n path rel) (walk_icons-IsUsable ns path rel)

module _ (join : Bytes → Bytes → Bytes) (stat_root : Bytes → Root) (bases : List Bytes)
    (icon : Bytes) where
  -- The answer of a chain: the best file of its first theme that has a file for the icon.
  abbrev pub IsFirst : ℤ → List Bytes → Option (Bytes × Format) → Type 0
  IsFirst preferred [] r = r ≡ none
  IsFirst preferred (t ∷ ts) r =
      let cs = collect_from join stat_root 0 bases t icon in
      ((cs ≡ []) × IsFirst preferred ts r)
      ⊎ ((c : IconCandidate) × (r ≡ some (c.path, c.format))
          × IsBest preferred cs (some c)
          × IsUsable c)
