-- ===== src/Policy.antt =====
-- The policy package: bucket policies, user policies, and the conditions and globs in them.
pub mod Glob
pub mod Document
pub mod Condition
pub mod Statement
pub mod Decide
pub mod Evaluators
pub mod Validate
pub mod User
