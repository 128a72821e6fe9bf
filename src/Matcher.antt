-- ===== src/Matcher.antt =====
-- internal/imposter/matcher.go: predicate evaluation and stub selection.
pub mod Env
pub mod Fields
pub mod Cache
pub mod Json
pub mod Compare
pub mod Substring
pub mod Exists
pub mod Evaluate
pub mod Match
