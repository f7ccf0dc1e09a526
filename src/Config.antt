-- ===== src/Config.antt =====
-- The deployed configuration: the operations that a role may name, and the access model.
pub mod Operations
pub mod Roles
pub mod Vocabulary
pub mod Validation
