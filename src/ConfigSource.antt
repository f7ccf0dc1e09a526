-- ===== src/ConfigSource.antt =====
-- internal/configsource: where the configuration files come from.
pub mod Sources
pub mod Pair
pub mod Cache
