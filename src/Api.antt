-- ===== src/Api.antt =====
-- api: the HTTP service that takes commands and reports on them.
pub mod Types
pub mod Result
pub mod Codec
pub mod Validate
pub mod Enums
pub mod Http
pub mod Front
pub mod Handlers
pub mod Status
pub mod Router
pub mod Laws
