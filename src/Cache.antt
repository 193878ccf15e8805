-- ===== src/Cache.antt =====
-- src/cache: what the program keeps between tokens.
pub mod Neuron
pub mod Kv
pub mod Coactivation
