-- ===== src/Httpapi.antt =====
-- server/internal/httpapi: the handlers of the REST API.
pub mod Response
pub mod Apps
pub mod Launch
pub mod Icons
pub mod Pair
pub mod Status
pub mod NotFound
mod Tests
