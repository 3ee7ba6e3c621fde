-- ===== src/Core.antt =====
-- packages/core: the data model, identities, admission, authorization, validation and migration.
pub mod Types
pub mod Platform
pub mod SameValues
pub mod Identity
pub mod Admission
pub mod Authorization
pub mod Validation
pub mod Migration
pub mod Readiness
pub mod Samples
