-- ===== src/Tests.antt =====
-- Concrete runs of the three services, on a machine and on numbers that are fixed here.
pub mod Fixture
pub mod Worker
mod Api
mod System
mod Contract
pub mod Coders
pub mod Http
mod Client
pub mod Pipeline
mod Placeholders
mod Enums
mod Success
mod Front
