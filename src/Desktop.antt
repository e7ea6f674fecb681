-- ===== src/Desktop.antt =====
-- server/internal/desktop: freedesktop entries, their parser, Exec lines and the directory scan.
pub mod Entry
pub mod Exec
pub mod Expand
pub mod Text
pub mod Lines
pub mod Assign
pub mod Parse
pub mod FileTree
pub mod Scan
mod Tests
