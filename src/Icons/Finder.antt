-- ===== src/Icons/Finder.antt =====
-- server/internal/icons/finder.go: `New`, `DefaultBaseDirs`, `Find` and the searches that it calls.
-- The file system is given by what `os.Stat`, `os.ReadDir` and `filepath.WalkDir` answer, and
-- `join` is `filepath.Join`.
pub mod Candidates
pub mod Fallback
pub mod First
pub mod Tree
use remote_app_start_my_linu.Prelude.{
  ℕ, suc, ◌+◌, Bytes, codes, eq_bytes, contains_byte, is_empty, Bool, true, false, not, ◌&&◌, ◌||◌,
  leb, if◌then◌else◌, List, [], ◌∷◌, ◌++◌, Option, none, some, ℤ,
}
use remote_app_start_my_linu.Desktop.FileTree.{
  Node, file, dir, Nodes, nil, cons, Root, missing, stat_failed, not_dir, directory,
}
use remote_app_start_my_linu.Desktop.Scan.{contains, dedupe, split_on, search_dirs, extension}
use remote_app_start_my_linu.Icons.ThemeIndex.{IndexFile}
use remote_app_start_my_linu.Icons.Chain.{
  Themes, hicolor_theme, DirEntry, load_themes, resolve_theme_chain,
}
use remote_app_start_my_linu.Icons.Pick.{
  Format, svg, png, xpm, unknown, IconCandidate, pick_candidate,
}
use remote_app_start_my_linu.Icons.Size.{size_from_parts}

-- `DefaultBaseDirs`; an empty value stands for a variable that is not set.
unfoldable pub default_base_dirs : (Bytes → Bytes → Bytes) → Bytes → Bytes → Bytes → List Bytes
default_base_dirs join home data_home data_dirs =
    let user : List Bytes = if is_empty home then [] else join home (codes ".icons") ∷ [] in
    let own : List Bytes =
      if not (is_empty data_home)
      then join data_home (codes "icons") ∷ []
      else if not (is_empty home)
      then join home (codes ".local/share/icons") ∷ []
      else [] in
    let shared : List Bytes =
      if is_empty data_dirs
      then []
      else search_dirs join (codes "icons") (split_on b':' [] data_dirs) in
    let system = codes "/usr/share/icons" ∷ codes "/usr/share/pixmaps" ∷ [] in
    dedupe (user ++ (own ++ (shared ++ system)))

-- `themes` is none until the first search that asks for it, as `themesOnce` keeps it.
pub record Finder : Type 0 where
  pub base_dirs : List Bytes
  pub theme : Bytes
  pub themes : Option Themes

-- `New`; the defaults are `DefaultBaseDirs()`.
unfoldable pub new_finder : List Bytes → List Bytes → Bytes → Finder
new_finder defaults [] theme = record {
  base_dirs = defaults;
  theme = if is_empty theme then hicolor_theme else theme;
  themes = none;
}
new_finder defaults (d ∷ ds) theme = record {
  base_dirs = d ∷ ds;
  theme = if is_empty theme then hicolor_theme else theme;
  themes = none;
}

-- `strings.ToLower`, as far as the names of the formats tell: no other rune folds to their letters.
unfoldable lower_ascii : Bytes → Bytes
lower_ascii [] = []
lower_ascii (c ∷ cs) = (if leb b'A' c && leb c b'Z' then c + 32 else c) ∷ lower_ascii cs

unfoldable format_of_ext : Bytes → Format
format_of_ext ext =
    if eq_bytes ext (codes ".svg")
    then svg
    else if eq_bytes ext (codes ".png")
    then png
    else if eq_bytes ext (codes ".xpm")
    then xpm
    else unknown

-- `formatFromExt` of the name of a file.
unfoldable pub format_from_ext : Bytes → Format
unfolding extension lower_ascii format_of_ext
format_from_ext name = format_of_ext (lower_ascii (extension name))

-- `wanted` has the name.
unfoldable pub is_wanted : Bytes → Bytes → Bool
is_wanted icon name =
    eq_bytes name (icon ++ codes ".svg")
    || eq_bytes name (icon ++ codes ".png")
    || eq_bytes name (icon ++ codes ".xpm")

-- `filepath.Dir` of a relative path, split at its slashes.
abbrev pub dir_parts : List Bytes → List Bytes
dir_parts [] = codes "." ∷ []
dir_parts (d ∷ ds) = d ∷ ds

-- The candidate that a file below a theme is, if it is one.
unfoldable pub candidate_of : ℕ → Bytes → Format → Option ℤ → List IconCandidate
candidate_of idx path format none = []
candidate_of idx path unknown (some size) = []
candidate_of idx path format (some size) =
    record { path = path; format = format; size = size; base_idx = idx } ∷ []

module _ (join : Bytes → Bytes → Bytes) (icon : Bytes) (idx : ℕ) where
  -- The callback on a file, at its path and below the directories `rel` of the theme.
  unfoldable pub visit_icon : Bytes → List Bytes → Bytes → List IconCandidate
  unfolding candidate_of
  visit_icon path rel name =
      if not (is_wanted icon name)
      then []
      else candidate_of idx path (format_from_ext name) (size_from_parts (dir_parts rel))

  -- `filepath.WalkDir` with the callback; a directory that cannot be read is passed over.
  unfoldable mutual
    pub walk_icon : Bytes → List Bytes → Node → List IconCandidate
    walk_icon path rel (file name _) = visit_icon (join path name) rel name
    walk_icon path rel (dir name true children) =
        walk_icons (join path name) (rel ++ name ∷ []) children
    walk_icon path rel (dir name false children) = []

    pub walk_icons : Bytes → List Bytes → Nodes → List IconCandidate
    walk_icons path rel nil = []
    walk_icons path rel (cons n ns) = walk_icon path rel n ++ walk_icons path rel ns

  unfoldable pub theme_candidates : Bytes → Root → List IconCandidate
  unfolding walk_icons
  theme_candidates path missing = []
  theme_candidates path stat_failed = []
  theme_candidates path not_dir = []
  theme_candidates path (directory false children) = []
  theme_candidates path (directory true children) = walk_icons path [] children

-- What a search yields; `out_of_fuel` stands for a search of the themes that does not end.
pub data Found : Type 0 where
  hit : Bytes → Format → Found
  not_found out_of_fuel : Found

-- What `os.Stat` says of a path.
pub data Stat : Type 0 where
  stat_error is_directory is_file : Stat

abbrev pub or_file : Option (Bytes × Format) → Option (Bytes × Format) → Option (Bytes × Format)
or_file none other = other
or_file (some p) other = some p

module _ (join : Bytes → Bytes → Bytes) (stat_root : Bytes → Root) where
  -- `collectCandidates`: the loop over the bases, from an index on.
  unfoldable pub collect_from : ℕ → List Bytes → Bytes → Bytes → List IconCandidate
  unfolding theme_candidates
  collect_from idx [] theme icon = []
  collect_from idx (base ∷ bases) theme icon =
      theme_candidates join icon idx (join base theme) (stat_root (join base theme))
      ++ collect_from (suc idx) bases theme icon

  -- The loop over the themes of the chain.
  unfoldable pub find_in_themes : List Bytes → Bytes → ℤ → List Bytes → Option (Bytes × Format)
  unfolding collect_from
  find_in_themes bases icon preferred [] = none
  find_in_themes bases icon preferred (theme ∷ themes) =
      or_file (pick_candidate (collect_from 0 bases theme icon) preferred)
        (find_in_themes bases icon preferred themes)

module _ (join : Bytes → Bytes → Bytes) (stat : Bytes → Stat) where
  -- The first of the paths that is a file.
  unfoldable first_file : List Bytes → Option (Bytes × Format)
  first_file [] = none
  first_file (p ∷ ps) =
      let rest = first_file ps in
      elim (stat p) [
        | stat_error ↦ rest
        | is_directory ↦ rest
        | is_file ↦ some (p, format_from_ext p)
      ]

  abbrev with_exts : Bytes → Bytes → List Bytes
  with_exts base icon =
      join base (icon ++ codes ".svg")
      ∷ join base (icon ++ codes ".png")
      ∷ join base (icon ++ codes ".xpm")
      ∷ []

  unfoldable pixmap_paths : List Bytes → Bytes → List Bytes
  pixmap_paths [] icon = []
  pixmap_paths (base ∷ bases) icon =
      with_exts (join base (codes "pixmaps")) icon
      ++ (with_exts base icon ++ pixmap_paths bases icon)

  unfoldable pub pixmaps_fallback : List Bytes → Bytes → Option (Bytes × Format)
  unfolding first_file pixmap_paths
  pixmaps_fallback bases icon = first_file (pixmap_paths bases icon)

  unfoldable lookup_explicit : Bytes → Found
  lookup_explicit icon = elim (stat icon) [
    | stat_error ↦ not_found
    | is_directory ↦ not_found
    | is_file ↦ hit icon (format_from_ext icon)
  ]

  unfoldable pub or_pixmaps : Finder → Bytes → Option (Bytes × Format) → Found
  or_pixmaps f icon (some (p, format)) = hit p format
  or_pixmaps f icon none = elim (pixmaps_fallback f.base_dirs icon) [
    | some (p, format) ↦ hit p format
    | none ↦ not_found
  ]

-- The file system: what `os.Stat` and `filepath.WalkDir` say of a directory, what `os.ReadDir`
-- answers, and what opening an index.theme file yields.
module _ (join : Bytes → Bytes → Bytes) (stat : Bytes → Stat) (stat_root : Bytes → Root)
    (read_dir : Bytes → Option (List DirEntry)) (open_index : Bytes → IndexFile) where
  unfoldable pub find_chain : Finder → Bytes → ℤ → Option (List Bytes) → Found
  unfolding find_in_themes or_pixmaps
  find_chain f icon preferred none = out_of_fuel
  find_chain f icon preferred (some chain) =
      or_pixmaps join stat f icon (find_in_themes join stat_root f.base_dirs icon preferred chain)

  -- `loadThemesOnce`
  unfoldable pub themes_of : Finder → Themes
  themes_of f = elim f.themes [
    | some themes ↦ themes
    | none ↦ load_themes join read_dir open_index [] f.base_dirs
  ]

  -- `Find`, with the finder that it leaves.
  unfoldable pub find : Finder → Bytes → ℤ → Found × Finder
  unfolding find_chain lookup_explicit themes_of
  find f icon preferred =
      if is_empty icon
      then (not_found, f)
      else if contains_byte b'/' icon
      then (lookup_explicit join stat icon, f)
      else (
        find_chain f icon preferred (resolve_theme_chain (themes_of f) f.theme),
        record f { themes = some (themes_of f) },
      )
