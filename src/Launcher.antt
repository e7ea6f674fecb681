-- ===== src/Launcher.antt =====
-- server/internal/launcher: starting applications and shortcuts, and tracking their processes.
pub mod Tracker
pub mod Shell
pub mod Launch
mod Tests
