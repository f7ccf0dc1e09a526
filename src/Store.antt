-- ===== src/Store.antt =====
-- internal/store: the part of the access model that is edited while the service runs.
pub mod Model
pub mod Users
pub mod Roles
pub mod Lockouts
pub mod Codec
pub mod Mutate
pub mod Secret
pub mod Operations
pub mod Snapshots
