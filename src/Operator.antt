-- ===== src/Operator.antt =====
-- internal/cnpgi/operator: the plugin's configuration and the cache of settled cluster states.
pub mod Config
pub mod Settled
pub mod Hooks
