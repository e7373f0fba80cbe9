-- ===== src/Impersonate.antt =====
-- internal/impersonate: the clients that carry a fingerprint, and their cache.
pub mod Client
pub mod Cache
pub mod Classify
pub mod Infer
pub mod Profiles
pub mod Catalogue
pub mod Build
pub mod Context
pub mod Lines
pub mod Races
mod Tests
