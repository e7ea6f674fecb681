-- ===== src/Icons/Tests.antt =====
-- The icon lookup of server/internal/icons at concrete themes and files.
use remote_app_start_my_linu.Prelude.{
  ℕ, Bytes, codes, eq_bytes, List, [], ◌∷◌, ◌++◌, Option, none, some, pos, ◌≡◌, true, refl, arith,
}
use remote_app_start_my_linu.Prelude.Assoc.{lookup}
use remote_app_start_my_linu.Prelude.Sort.{sort_by}
use remote_app_start_my_linu.Desktop.Scan.{contains}
use remote_app_start_my_linu.Desktop.FileTree.{file, dir, nil, cons, Root, directory}
use remote_app_start_my_linu.Icons.ThemeIndex.{IndexFile, absent}
use remote_app_start_my_linu.Icons.Chain.{
  Themes, DirEntry, resolve_theme_chain, dfs, search_all, parents,
}
use remote_app_start_my_linu.Icons.Chain.Correct.{IsChain, resolve_theme_chain-IsChain}
use remote_app_start_my_linu.Icons.Pick.{png, IconCandidate, choose, first_of_size, best_by}
use remote_app_start_my_linu.Icons.Pick.Best.{IsBest, choose-IsBest}
use remote_app_start_my_linu.Icons.Size.{digits_from}
use remote_app_start_my_linu.Icons.Finder.{Finder, Stat, stat_error}

-- Two themes that inherit from each other.
abbrev cyclic : Themes
cyclic =
    (codes "dark", record { name = codes "dark"; inherits = codes "light" ∷ [] })
    ∷ (codes "light", record { name = codes "light"; inherits = codes "dark" ∷ [] })
    ∷ []

cyclic_chain :
    resolve_theme_chain cyclic (codes "dark")
    ≡ some (codes "dark" ∷ codes "light" ∷ codes "hicolor" ∷ [])
unfolding resolve_theme_chain dfs search_all parents contains lookup eq_bytes
cyclic_chain = refl

resolve_theme_chain-IsChain_example :
    (chain : List Bytes) × (resolve_theme_chain cyclic (codes "dark") ≡ some chain)
    × IsChain cyclic (codes "dark") chain
resolve_theme_chain-IsChain_example =
    resolve_theme_chain-IsChain cyclic (codes "dark") (λ e. ground arith)

abbrev candidate : ℕ → ℕ → IconCandidate
candidate size base = record {
  path = codes "/i.png";
  format = png;
  size = pos size;
  base_idx = base;
}

abbrev raster : List IconCandidate
raster = candidate 32 0 ∷ candidate 128 1 ∷ candidate 64 1 ∷ candidate 64 0 ∷ []

nearest_larger : choose (pos 48) raster ≡ some (candidate 64 0)
unfolding choose first_of_size sort_by best_by
nearest_larger = refl

choose-IsBest_example : IsBest (pos 48) raster (choose (pos 48) raster)
choose-IsBest_example = choose-IsBest (pos 48) raster

forty_eight : digits_from 0 (codes "48") ≡ some 48
unfolding digits_from
forty_eight = refl

thirty_two : digits_from 0 (codes "32") ≡ some 32
unfolding digits_from
thirty_two = refl

-- One base directory with one icon in every theme, and no pixmaps.
abbrev joined : Bytes → Bytes → Bytes
joined a b = a ++ (b'/' ∷ b)

abbrev no_file : Bytes → Stat
no_file path = stat_error

abbrev one_icon : Bytes → Root
one_icon path =
    directory true (cons (dir (codes "48x48") true (cons (file (codes "vi.svg") none) nil)) nil)

abbrev no_dir : Bytes → Option (List DirEntry)
no_dir path = none

abbrev no_index : Bytes → IndexFile
no_index path = absent

abbrev finder : Finder
finder = record { base_dirs = codes "/i" ∷ []; theme = codes "dark"; themes = none }
