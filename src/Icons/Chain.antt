-- ===== src/Icons/Chain.antt =====
-- server/internal/icons/finder.go, `loadThemesOnce` and `resolveThemeChain`: the themes that are
-- searched, in depth-first order. The visited set of the code has the same names as its list
-- `order`, so that one list stands for both.
pub mod Reach
pub mod Search
pub mod Correct
use remote_app_start_my_linu.Prelude.{
  ℕ, zero, suc, ◌+◌, Bytes, codes, is_empty, Bool, true, false, ◌||◌, if◌then◌else◌, List, [], ◌∷◌,
  ◌++◌, Option, none, some, Result, ok, err, length,
}
use remote_app_start_my_linu.Prelude.Assoc.{lookup, insert, has}
use remote_app_start_my_linu.Desktop.Scan.{contains}
use remote_app_start_my_linu.Icons.ThemeIndex.{ThemeIndex, IndexFile, load_theme_index}

abbrev pub Themes : Type 0
Themes = List (Bytes × ThemeIndex)

abbrev pub hicolor_theme : Bytes
hicolor_theme = codes "hicolor"

-- What `os.ReadDir` of a base directory tells of one entry.
pub record DirEntry : Type 0 where
  pub name : Bytes
  pub is_dir : Bool

module _ (join : Bytes → Bytes → Bytes) (read_dir : Bytes → Option (List DirEntry))
    (open_index : Bytes → IndexFile) where
  -- One entry of a base directory; the first theme of a name is kept.
  unfoldable load_entry : Bytes → Themes → DirEntry → Themes
  load_entry base themes e =
      if e.is_dir
      then elim (load_theme_index (open_index (join base e.name))) [
        | err _ ↦ themes
        | ok x ↦ if has x.name themes then themes else insert x.name x themes
      ]
      else themes

  unfoldable load_entries : Bytes → Themes → List DirEntry → Themes
  unfolding load_entry
  load_entries base themes [] = themes
  load_entries base themes (e ∷ es) = load_entries base (load_entry base themes e) es

  -- `loadThemesOnce`, its first call.
  unfoldable pub load_themes : Themes → List Bytes → Themes
  unfolding load_entries
  load_themes themes [] = themes
  load_themes themes (base ∷ bases) = elim (read_dir base) [
    | none ↦ load_themes themes bases
    | some es ↦ load_themes (load_entries base themes es) bases
  ]

-- The parents of a theme; a theme with no index has none.
unfoldable pub parents : Themes → Bytes → List Bytes
parents themes name = elim (lookup name themes) [ none ↦ [] | some x ↦ x.inherits ]

-- The loop over the parents, with the search of one of them.
unfoldable pub search_all :
    (Bytes → List Bytes → Option (List Bytes)) → List Bytes → List Bytes → Option (List Bytes)
search_all search [] order = some order
search_all search (p ∷ ps) order = elim (search p order) [
  | none ↦ none
  | some order' ↦ search_all search ps order'
]

-- `dfs`, on fuel; `none` means that the fuel ran out.
unfoldable pub dfs : Themes → ℕ → Bytes → List Bytes → Option (List Bytes)
dfs themes zero name order = none
dfs themes (suc fuel) name order =
    if is_empty name || contains name order
    then some order
    else search_all (dfs themes fuel) (parents themes name) (order ++ name ∷ [])

-- `hicolor` at the end, if the search has not met it.
unfoldable pub with_hicolor : List Bytes → List Bytes
with_hicolor order = if contains hicolor_theme order then order else order ++ hicolor_theme ∷ []

-- `resolveThemeChain`; each round but the last visits a theme with an index.
unfoldable pub resolve_theme_chain : Themes → Bytes → Option (List Bytes)
unfolding with_hicolor
resolve_theme_chain themes initial = elim (dfs themes (suc (suc (length themes))) initial []) [
  | none ↦ none
  | some order ↦ some (with_hicolor order)
]
