-- ===== src/Terminal.antt =====
-- server/internal/terminal: the shell behind a web socket.
pub mod Session
pub mod Relay
pub mod Messages
pub mod Faithful
mod Tests
