-- ===== src/Beer/Usecase.antt =====
-- internal/beer/usecase/beer_usecase.go: what its methods share, then the methods and their theorems.
pub mod Changes
pub mod Catalog
pub mod Comments
pub mod Guards
pub mod Refines
pub mod Steps
pub mod Community
