-- ===== src/Beer.antt =====
-- internal/beer: the catalogue of beers, their comments and media, and its moderation.
pub mod Model
pub mod Repository
pub mod Usecase
pub mod Controller
pub mod Postgres
pub mod Moderation
pub mod Search
pub mod Filters
mod Tests
