-- ===== src/User.antt =====
-- internal/user: accounts, sessions and push subscriptions.
pub mod Model
pub mod Repository
pub mod Memory
pub mod Services
pub mod Usecase
pub mod Controller
pub mod Postgres
mod Tests
