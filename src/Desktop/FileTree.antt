-- ===== src/Desktop/FileTree.antt =====
-- The part of the file system that server/internal/desktop/scanner.go walks: what `os.Stat`,
-- `os.ReadDir` and `os.Open` answer. Names hold no slash; children stand in the order of `ReadDir`.
use remote_app_start_my_linu.Prelude.{Bytes, Bool, Option}
use remote_app_start_my_linu.Desktop.Lines.{Reader}

mutual
  pub data Node : Type 0 where
    -- A file that is no directory, and its reader if it can be opened.
    file : Bytes → Option Reader → Node
    -- A directory, whether it can be read, and its children.
    dir : Bytes → Bool → Nodes → Node

  pub data Nodes : Type 0 where
    nil : Nodes
    cons : Node → Nodes → Nodes

-- What `os.Stat` says of a scan root, and what `filepath.WalkDir` finds below it. A root that is a
-- symbolic link to a directory counts as `not_dir`: `WalkDir` does not follow it, so that nothing
-- below it is visited.
pub data Root : Type 0 where
  missing stat_failed not_dir : Root
  directory : Bool → Nodes → Root
