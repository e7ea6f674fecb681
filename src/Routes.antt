-- ===== src/Routes.antt =====
-- The routes of the two servers: server/internal/httpapi/router.go, server/internal/admin/admin.go,
-- server/internal/web/web.go, server/internal/terminal/handler.go up to the upgrade, and the top of
-- the routes in server/cmd/remotelauncher/main.go. One state holds what the handlers share.
pub mod Mux
pub mod Tables
pub mod Site
pub mod Serve
pub mod Answer
pub mod Guarded
pub mod Newcomers
pub mod Paths
pub mod Launches
pub mod Toggled
mod Tests
