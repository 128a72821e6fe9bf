-- ===== src/Models.antt =====
-- internal/models: the data that the other packages share.
pub mod Request
pub mod Predicate
pub mod Stub
pub mod Smtp
pub mod Imposter
