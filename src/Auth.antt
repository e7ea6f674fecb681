-- ===== src/Auth.antt =====
-- server/internal/auth: the pairing PIN, the rate limiter, the tokens and the middleware.
pub mod RateLimit
pub mod Middleware
pub mod Pin
pub mod Store
mod Tests
