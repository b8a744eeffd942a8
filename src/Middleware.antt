-- ===== src/Middleware.antt =====
-- pkg/middleware: the identity that a request carries (auth.go), and the middlewares around it.
pub mod Compression
pub mod Cors
pub mod Context
pub mod Auth
pub mod RateLimit
mod Tests
