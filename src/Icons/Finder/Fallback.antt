-- ===== src/Icons/Finder/Fallback.antt =====
-- `pixmapsFallback`: where an icon is searched for that no theme has.
use remote_app_start_my_linu.Prelude.{
  Bytes, codes, List, [], ◌∷◌, ◌++◌, Option, none, some, ◌≡◌, ◌≢◌, ◌⊎◌, inl, inr, refl, sym, ap,
  subst, ◌∙◌, Option-cases,
}
use remote_app_start_my_linu.Icons.Pick.{Format}
use remote_app_start_my_linu.Icons.Finder.{
  Finder, Stat, stat_error, is_directory, is_file, Found, hit, not_found, first_file, pixmap_paths,
  pixmaps_fallback, or_pixmaps, format_from_ext,
}

Stat-cases : (s : Stat) → (s ≡ is_file) ⊎ ((s ≡ is_directory) ⊎ (s ≡ stat_error))
Stat-cases is_file = inl refl
Stat-cases is_directory = inr (inl refl)
Stat-cases stat_error = inr (inr refl)

module _ (join : Bytes → Bytes → Bytes) (stat : Bytes → Stat) (icon : Bytes) where
  -- Where an icon can stand outside a theme, by base directory.
  abbrev pub places : List Bytes → List Bytes
  places [] = []
  places (base ∷ bases) =
      join (join base (codes "pixmaps")) (icon ++ codes ".svg")
      ∷ join (join base (codes "pixmaps")) (icon ++ codes ".png")
      ∷ join (join base (codes "pixmaps")) (icon ++ codes ".xpm")
      ∷ join base (icon ++ codes ".svg")
      ∷ join base (icon ++ codes ".png")
      ∷ join base (icon ++ codes ".xpm")
      ∷ places bases

  -- The answer is the first of the paths that is a file, or that there is none.
  abbrev pub IsFirstFile : List Bytes → Found → Type 0
  IsFirstFile [] r = r ≡ not_found
  IsFirstFile (p ∷ ps) r =
      ((stat p ≡ is_file) × (r ≡ hit p (format_from_ext p)))
      ⊎ ((stat p ≢ is_file) × IsFirstFile ps r)

  pixmap_paths-places : (bases : List Bytes) → pixmap_paths join stat bases icon ≡ places bases
  unfolding pixmap_paths
  pixmap_paths-places [] = refl
  pixmap_paths-places (base ∷ bases) = rw (pixmap_paths-places bases) refl

  abbrev answer : Option (Bytes × Format) → Found
  answer none = not_found
  answer (some (p, format)) = hit p format

  first_file-nil : answer (first_file join stat []) ≡ not_found
  unfolding first_file
  first_file-nil = refl

  first_file-hit :
      (p : Bytes) (ps : List Bytes)
      → stat p ≡ is_file
      → first_file join stat (p ∷ ps) ≡ some (p, format_from_ext p)
  unfolding first_file
  first_file-hit p ps e = rw (e, first_file) refl

  first_file-next :
      (p : Bytes) (ps : List Bytes)
      → (stat p ≡ is_directory) ⊎ (stat p ≡ stat_error)
      → first_file join stat (p ∷ ps) ≡ first_file join stat ps
  unfolding first_file
  first_file-next p ps (inl e) = rw (e, first_file) refl
  first_file-next p ps (inr e) = rw (e, first_file) refl

  not_file : (p : Bytes) → (stat p ≡ is_directory) ⊎ (stat p ≡ stat_error) → stat p ≢ is_file
  not_file p (inl e) g = absurd (cc (e, g))
  not_file p (inr e) g = absurd (cc (e, g))

  first_file-IsFirstFile : (ps : List Bytes) → IsFirstFile ps (answer (first_file join stat ps))
  first_file-IsFirstFile [] = first_file-nil
  first_file-IsFirstFile (p ∷ ps) = elim (Stat-cases (stat p)) [
    | inl e ↦ inl (e, ap answer (first_file-hit p ps e))
    | inr e ↦ inr (
      not_file p e,
      subst (λ z. IsFirstFile ps (answer z)) (sym (first_file-next p ps e))
          (first_file-IsFirstFile ps),
    )
  ]

  or_pixmaps-answer :
      (f : Finder)
      → or_pixmaps join stat f icon none ≡ answer (pixmaps_fallback join stat f.base_dirs icon)
  unfolding or_pixmaps
  or_pixmaps-answer f = elim (Option-cases (pixmaps_fallback join stat f.base_dirs icon)) [
    | inl e ↦ rw (e, or_pixmaps) refl
    | inr (x, e) ↦ rw (e, or_pixmaps) refl
  ]

  fallback-places :
      (bases : List Bytes)
      → pixmaps_fallback join stat bases icon ≡ first_file join stat (places bases)
  unfolding pixmaps_fallback
  fallback-places bases = ap (first_file join stat) (pixmap_paths-places bases)

  or_pixmaps-none :
      (f : Finder) → IsFirstFile (places f.base_dirs) (or_pixmaps join stat f icon none)
  or_pixmaps-none f =
      subst (IsFirstFile (places f.base_dirs))
        (sym (or_pixmaps-answer f ∙ ap answer (fallback-places f.base_dirs)))
        (first_file-IsFirstFile (places f.base_dirs))

  -- The answer of a chain, or of the pixmaps where it has none.
  abbrev pub Answers : Finder → Option (Bytes × Format) → Found → Type 0
  Answers f r found =
      ((p : Bytes) × (format : Format) × (r ≡ some (p, format)) × (found ≡ hit p format))
      ⊎ ((r ≡ none) × IsFirstFile (places f.base_dirs) found)

  pub or_pixmaps-Answers :
      (f : Finder) (r : Option (Bytes × Format)) → Answers f r (or_pixmaps join stat f icon r)
  unfolding or_pixmaps
  or_pixmaps-Answers f (some (p, format)) = inl (p, format, refl, refl)
  or_pixmaps-Answers f none = inr (refl, or_pixmaps-none f)
