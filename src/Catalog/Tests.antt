-- ===== src/Catalog/Tests.antt =====
-- A catalog over a small file system.
use remote_app_start_my_linu.Prelude.{
  Bytes, codes, eq_bytes, true, false, if◌then◌else◌, [], ◌∷◌, some,
}
use remote_app_start_my_linu.Desktop.FileTree.{file, nil, cons, Root, missing, directory}
use remote_app_start_my_linu.Desktop.Lines.{Reader}
use remote_app_start_my_linu.Desktop.Scan.{scan}
use remote_app_start_my_linu.Catalog.{Catalog, or_default, reload}
use remote_app_start_my_linu.Catalog.Agreement.{Agrees, reload-Agrees}

abbrev as_is : Bytes → Bytes
as_is s = s

abbrev vi_file : Reader
vi_file = record {
  content = codes "[Desktop Entry]\nType=Application\nName=Vi\nExec=vi\n";
  fails = false;
}

abbrev one_root : Bytes → Root
one_root root =
    if eq_bytes root (codes "a")
    then directory true (cons (file (codes "vi.desktop") (some vi_file)) nil)
    else missing

abbrev unread : Catalog
unread = record { paths = []; by_id = []; list = [] }

reload-Agrees_example :
    Agrees as_is
      (scan one_root (or_default [] (codes "a" ∷ []))).0
      (reload as_is one_root (codes "a" ∷ []) unread).0
reload-Agrees_example = reload-Agrees as_is one_root (codes "a" ∷ []) unread
