-- ===== src/Icons/Finder/Candidates.antt =====
-- `collectCandidates`: which files a theme has for an icon, stated apart from the walk.
use remote_app_start_my_linu.Prelude.{
  ℕ, Bytes, codes, eq_bytes, eq_bytes_iff, true, List, [], ◌∷◌, ◌++◌, Option, none, some, ℤ, ◌≡◌,
  ◌≢◌, ◌⊎◌, inl, inr, refl, sym, ap, ◌∙◌, arith, In, Bool-cases,
}
use remote_app_start_my_linu.Desktop.Scan.{extension}
use remote_app_start_my_linu.Icons.Pick.{Format, unknown, svg, png, xpm, IconCandidate}
use remote_app_start_my_linu.Icons.Finder.{
  candidate_of, is_wanted, lower_ascii, format_of_ext, format_from_ext,
}

pub In-append : {A : Type 0} (a : A) (xs ys : List A) → In a (xs ++ ys) → In a xs ⊎ In a ys
In-append a [] ys m = inr m
In-append a (x ∷ xs) ys (inl e) = inl (inl e)
In-append a (x ∷ xs) ys (inr m) = elim (In-append a xs ys m) [ inl k ↦ inl (inr k) | inr k ↦ inr k ]

pub In-left : {A : Type 0} (a : A) (xs ys : List A) → In a xs → In a (xs ++ ys)
In-left a [] ys m = elim m [ ]
In-left a (x ∷ xs) ys (inl e) = inl e
In-left a (x ∷ xs) ys (inr m) = inr (In-left a xs ys m)

pub In-right : {A : Type 0} (a : A) (xs ys : List A) → In a ys → In a (xs ++ ys)
In-right a [] ys m = m
In-right a (x ∷ xs) ys m = inr (In-right a xs ys m)

extension-append :
    (s t : Bytes) (d : ℕ) (ds : Bytes) → t ≡ d ∷ ds → extension t ≡ t → extension (s ++ t) ≡ t
unfolding extension
extension-append [] t d ds e h = h
extension-append (c ∷ s) t d ds e h =
    let deeper = extension-append s t d ds e h in rw (deeper, e, extension) refl

-- The names of the files of an icon, each with its format.
abbrev pub IsNamed : Bytes → Bytes → Format → Type 0
IsNamed icon name format =
    ((name ≡ icon ++ codes ".svg") × (format ≡ svg))
    ⊎ (((name ≡ icon ++ codes ".png") × (format ≡ png))
        ⊎ ((name ≡ icon ++ codes ".xpm") × (format ≡ xpm)))

format_from_ext-svg : (icon : Bytes) → format_from_ext (icon ++ codes ".svg") ≡ svg
unfolding format_from_ext lower_ascii format_of_ext eq_bytes extension
format_from_ext-svg icon =
    ap (λ z. format_of_ext (lower_ascii z)) (extension-append icon (codes ".svg") _ _ refl refl)

format_from_ext-png : (icon : Bytes) → format_from_ext (icon ++ codes ".png") ≡ png
unfolding format_from_ext lower_ascii format_of_ext eq_bytes extension
format_from_ext-png icon =
    ap (λ z. format_of_ext (lower_ascii z)) (extension-append icon (codes ".png") _ _ refl refl)

format_from_ext-xpm : (icon : Bytes) → format_from_ext (icon ++ codes ".xpm") ≡ xpm
unfolding format_from_ext lower_ascii format_of_ext eq_bytes extension
format_from_ext-xpm icon =
    ap (λ z. format_of_ext (lower_ascii z)) (extension-append icon (codes ".xpm") _ _ refl refl)

pub is_wanted-IsNamed :
    (icon name : Bytes) → is_wanted icon name ≡ true → IsNamed icon name (format_from_ext name)
unfolding is_wanted
is_wanted-IsNamed icon name h = elim (Bool-cases (eq_bytes name (icon ++ codes ".svg"))) [
  | inl e ↦
      let same = (eq_bytes_iff name (icon ++ codes ".svg")).0 e in
      inl (same, ap format_from_ext same ∙ format_from_ext-svg icon)
  | inr n ↦ elim (Bool-cases (eq_bytes name (icon ++ codes ".png"))) [
    | inl e ↦
        let same = (eq_bytes_iff name (icon ++ codes ".png")).0 e in
        inr (inl (same, ap format_from_ext same ∙ format_from_ext-png icon))
    | inr k ↦
        let same = (eq_bytes_iff name (icon ++ codes ".xpm")).0 (ground arith) in
        inr (inr (same, ap format_from_ext same ∙ format_from_ext-xpm icon))
  ]
]

pub IsNamed-is_wanted :
    (icon name : Bytes) (format : Format)
    → IsNamed icon name format
    → (is_wanted icon name ≡ true) × (format_from_ext name ≡ format) × (format ≢ unknown)
unfolding is_wanted
IsNamed-is_wanted icon name format (inl (e, f)) = (
  ground (arith, eq_bytes_iff name (icon ++ codes ".svg")),
  ap format_from_ext e ∙ (format_from_ext-svg icon ∙ sym f),
  λ u. ground arith,
)
IsNamed-is_wanted icon name format (inr (inl (e, f))) = (
  ground (arith, eq_bytes_iff name (icon ++ codes ".png")),
  ap format_from_ext e ∙ (format_from_ext-png icon ∙ sym f),
  λ u. ground arith,
)
IsNamed-is_wanted icon name format (inr (inr (e, f))) = (
  ground (arith, eq_bytes_iff name (icon ++ codes ".xpm")),
  ap format_from_ext e ∙ (format_from_ext-xpm icon ∙ sym f),
  λ u. ground arith,
)

-- What a candidate is told from.
abbrev pub IsMade : ℕ → Bytes → Format → Option ℤ → IconCandidate → Type 0
IsMade idx path format o c =
    (o ≡ some c.size) × (c.format ≡ format) × (c.path ≡ path) × (c.base_idx ≡ idx)

pub candidate_of-IsMade :
    (idx : ℕ) (path : Bytes) (format : Format) (o : Option ℤ) (c : IconCandidate)
    → In c (candidate_of idx path format o)
    → IsMade idx path format o c
unfolding candidate_of
candidate_of-IsMade idx path format none c m = elim m [ ]
candidate_of-IsMade idx path unknown (some n) c m = elim m [ ]
candidate_of-IsMade idx path svg (some n) c (inl e) = (
  ap (λ z. some z.size) (sym e),
  ap (λ z. z.format) e,
  ap (λ z. z.path) e,
  ap (λ z. z.base_idx) e,
)
candidate_of-IsMade idx path svg (some n) c (inr m) = elim m [ ]
candidate_of-IsMade idx path png (some n) c (inl e) = (
  ap (λ z. some z.size) (sym e),
  ap (λ z. z.format) e,
  ap (λ z. z.path) e,
  ap (λ z. z.base_idx) e,
)
candidate_of-IsMade idx path png (some n) c (inr m) = elim m [ ]
candidate_of-IsMade idx path xpm (some n) c (inl e) = (
  ap (λ z. some z.size) (sym e),
  ap (λ z. z.format) e,
  ap (λ z. z.path) e,
  ap (λ z. z.base_idx) e,
)
candidate_of-IsMade idx path xpm (some n) c (inr m) = elim m [ ]

candidate_of-own :
    (idx : ℕ) (path : Bytes) (format : Format) (size : ℤ)
    → format ≢ unknown
    → In
        (record { path = path; format = format; size = size; base_idx = idx })
        (candidate_of idx path format (some size))
unfolding candidate_of
candidate_of-own idx path svg size h = inl refl
candidate_of-own idx path png size h = inl refl
candidate_of-own idx path xpm size h = inl refl
candidate_of-own idx path unknown size h = absurd (h refl)

pub IsMade-candidate_of :
    (idx : ℕ) (path : Bytes) (format : Format) (o : Option ℤ) (c : IconCandidate)
    → format ≢ unknown
    → IsMade idx path format o c
    → In c (candidate_of idx path format o)
IsMade-candidate_of idx path format o c known (e, f, p, i) =
    rw (e, sym f, sym p, sym i)
      (candidate_of-own c.base_idx c.path c.format c.size (λ u. known (sym f ∙ u)))
