-- ===== src/Icons/Finder/Tree.antt =====
-- `collectCandidates`: the files that the walk of a theme finds for an icon.
use remote_app_start_my_linu.Prelude.{
  ℕ, suc, Bytes, true, false, List, [], ◌∷◌, ◌++◌, Option, some, ◌≡◌, ◌⊎◌, ◌↔◌, inl, inr, refl, sym,
  subst, ◌∙◌, In, Bool-cases,
}
use remote_app_start_my_linu.Desktop.FileTree.{
  Node, file, dir, Nodes, nil, cons, Root, missing, stat_failed, not_dir, directory,
}
use remote_app_start_my_linu.Desktop.Lines.{Reader}
use remote_app_start_my_linu.Icons.Pick.{IconCandidate}
use remote_app_start_my_linu.Icons.Size.{size_from_parts}
use remote_app_start_my_linu.Icons.Finder.{
  candidate_of, visit_icon, walk_icon, walk_icons, theme_candidates, collect_from, dir_parts,
  is_wanted, format_from_ext,
}
use remote_app_start_my_linu.Icons.Finder.Candidates.{
  In-append, In-left, In-right, IsNamed, is_wanted-IsNamed, IsNamed-is_wanted, candidate_of-IsMade,
  IsMade-candidate_of,
}

module _ (join : Bytes → Bytes → Bytes) (icon : Bytes) (idx : ℕ) (c : IconCandidate) where
  -- The candidate is the file at a path, below the directories `rel` of the theme, one of which tells
  -- its size.
  abbrev pub IsIcon : Bytes → List Bytes → Bytes → Type 0
  IsIcon path rel name =
      IsNamed icon name c.format
      × (size_from_parts (dir_parts rel) ≡ some c.size)
      × (c.path ≡ path)
      × (c.base_idx ≡ idx)

  -- It stands in a directory, or below one that can be read.
  pub data InTree : Bytes → List Bytes → Nodes → Type 0 where
    here :
        {path : Bytes} {rel : List Bytes} {name : Bytes} {r : Option Reader} {ns : Nodes}
        → IsIcon (join path name) rel name
        → InTree path rel (cons (file name r) ns)
    below :
        {path : Bytes} {rel : List Bytes} {name : Bytes} {children ns : Nodes}
        → InTree (join path name) (rel ++ name ∷ []) children
        → InTree path rel (cons (dir name true children) ns)
    beside :
        {path : Bytes} {rel : List Bytes} {n : Node} {ns : Nodes}
        → InTree path rel ns
        → InTree path rel (cons n ns)

  visit_icon-wanted :
      (path : Bytes) (rel : List Bytes) (name : Bytes)
      → is_wanted icon name ≡ true
      → visit_icon join icon idx path rel name
        ≡ candidate_of idx path (format_from_ext name) (size_from_parts (dir_parts rel))
  unfolding visit_icon
  visit_icon-wanted path rel name w = rw (w, visit_icon) refl

  visit_icon-other :
      (path : Bytes) (rel : List Bytes) (name : Bytes)
      → is_wanted icon name ≡ false
      → visit_icon join icon idx path rel name ≡ []
  unfolding visit_icon
  visit_icon-other path rel name w = rw (w, visit_icon) refl

  visit_icon-IsIcon :
      (path : Bytes) (rel : List Bytes) (name : Bytes)
      → In c (visit_icon join icon idx path rel name)
      → IsIcon path rel name
  unfolding visit_icon
  visit_icon-IsIcon path rel name m = elim (Bool-cases (is_wanted icon name)) [
    | inl w ↦
        let k : In c
            (candidate_of idx path (format_from_ext name) (size_from_parts (dir_parts rel))) =
          subst (In c) (visit_icon-wanted path rel name w) m in
        let (o, f, p, i) =
          candidate_of-IsMade idx path (format_from_ext name) (size_from_parts (dir_parts rel)) c
            k in
        (subst (IsNamed icon name) (sym f) (is_wanted-IsNamed icon name w), o, p, i)
    | inr w ↦ elim (subst (In c) (visit_icon-other path rel name w) m) [ ]
  ]

  IsIcon-visit_icon :
      (path : Bytes) (rel : List Bytes) (name : Bytes)
      → IsIcon path rel name
      → In c (visit_icon join icon idx path rel name)
  IsIcon-visit_icon path rel name (named, o, p, i) =
      let (w, f, known) = IsNamed-is_wanted icon name c.format named in
      subst (In c) (sym (visit_icon-wanted path rel name w)) (
        IsMade-candidate_of idx path (format_from_ext name) (size_from_parts (dir_parts rel)) c
          (λ u. known (sym f ∙ u)) (o, sym f, p, i))

  mutual
    unfolding walk_icon walk_icons

    walk_icon-InTree :
        (n : Node) (ns : Nodes) (path : Bytes) (rel : List Bytes)
        → In c (walk_icon join icon idx path rel n)
        → InTree path rel (cons n ns)
    walk_icon-InTree (file name r) ns path rel m =
        here (visit_icon-IsIcon (join path name) rel name m)
    walk_icon-InTree (dir name true children) ns path rel m =
        below (walk_icons-InTree children (join path name) (rel ++ name ∷ []) m)
    walk_icon-InTree (dir name false children) ns path rel m = elim m [ ]

    walk_icons-InTree :
        (ns : Nodes) (path : Bytes) (rel : List Bytes)
        → In c (walk_icons join icon idx path rel ns)
        → InTree path rel ns
    walk_icons-InTree nil path rel m = elim m [ ]
    walk_icons-InTree (cons n ns) path rel m =
        elim (In-append c (walk_icon join icon idx path rel n) _ m) [
          | inl k ↦ walk_icon-InTree n ns path rel k
          | inr k ↦ beside (walk_icons-InTree ns path rel k)
        ]

  InTree-walk_icons :
      {path : Bytes} {rel : List Bytes} {ns : Nodes}
      → InTree path rel ns
      → In c (walk_icons join icon idx path rel ns)
  unfolding walk_icons walk_icon
  InTree-walk_icons (here {path} {rel} {name} {r} {ns} h) =
      In-left c (walk_icon join icon idx path rel (file name r)) _
        (IsIcon-visit_icon (join path name) rel name h)
  InTree-walk_icons (below {path} {rel} {name} {children} {ns} h) =
      In-left c (walk_icon join icon idx path rel (dir name true children)) _ (InTree-walk_icons h)
  InTree-walk_icons (beside {path} {rel} {n} {ns} h) =
      In-right c (walk_icon join icon idx path rel n) _ (InTree-walk_icons h)

module _ (join : Bytes → Bytes → Bytes) (stat_root : Bytes → Root) (icon : Bytes) (theme : Bytes)
    (c : IconCandidate) where
  -- It stands below the theme's directory of one of the base directories, which are counted from `idx`
  -- on, where that is a directory that can be read.
  abbrev pub InTheme : ℕ → List Bytes → Type 0
  InTheme idx [] = ⊥
  InTheme idx (base ∷ bases) =
      ((ns : Nodes) × (stat_root (join base theme) ≡ directory true ns)
        × InTree join icon idx c (join base theme) [] ns)
      ⊎ InTheme (suc idx) bases

  root-InTree :
      (idx : ℕ) (path : Bytes) (r : Root)
      → In c (theme_candidates join icon idx path r)
      → (ns : Nodes) × (r ≡ directory true ns) × InTree join icon idx c path [] ns
  unfolding theme_candidates
  root-InTree idx path missing m = elim m [ ]
  root-InTree idx path stat_failed m = elim m [ ]
  root-InTree idx path not_dir m = elim m [ ]
  root-InTree idx path (directory false ns) m = elim m [ ]
  root-InTree idx path (directory true ns) m =
      (ns, refl, walk_icons-InTree join icon idx c ns path [] m)

  InTree-root :
      (idx : ℕ) (path : Bytes) (ns : Nodes)
      → InTree join icon idx c path [] ns
      → In c (theme_candidates join icon idx path (directory true ns))
  unfolding theme_candidates
  InTree-root idx path ns h = InTree-walk_icons join icon idx c h

  collect_from-InTheme :
      (idx : ℕ) (bases : List Bytes)
      → In c (collect_from join stat_root idx bases theme icon)
      → InTheme idx bases
  unfolding collect_from
  collect_from-InTheme idx [] m = m
  collect_from-InTheme idx (base ∷ bases) m =
      let path = join base theme in
      elim (In-append c (theme_candidates join icon idx path (stat_root path)) _ m) [
        | inl k ↦ inl (root-InTree idx path (stat_root path) k)
        | inr k ↦ inr (collect_from-InTheme (suc idx) bases k)
      ]

  InTheme-collect_from :
      (idx : ℕ) (bases : List Bytes)
      → InTheme idx bases
      → In c (collect_from join stat_root idx bases theme icon)
  unfolding collect_from
  InTheme-collect_from idx [] h = h
  InTheme-collect_from idx (base ∷ bases) (inl (ns, e, h)) =
      In-left c (theme_candidates join icon idx (join base theme) (stat_root (join base theme))) _ (
        subst (λ z. In c (theme_candidates join icon idx (join base theme) z)) (sym e)
          (InTree-root idx (join base theme) ns h))
  InTheme-collect_from idx (base ∷ bases) (inr h) =
      In-right c (theme_candidates join icon idx (join base theme) (stat_root (join base theme))) _
        (InTheme-collect_from (suc idx) bases h)

  -- What is collected are exactly the files that the theme has for the icon.
  pub collect_from_iff :
      (bases : List Bytes)
      → (In c (collect_from join stat_root 0 bases theme icon) ↔ InTheme 0 bases)
  collect_from_iff bases = (collect_from-InTheme 0 bases, InTheme-collect_from 0 bases)
