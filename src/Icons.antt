-- ===== src/Icons.antt =====
-- server/internal/icons: the index files of themes, the order of themes, the choice of a file.
pub mod ThemeIndex
pub mod Chain
pub mod Size
pub mod Pick
pub mod Finder
mod Tests
