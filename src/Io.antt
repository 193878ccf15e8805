-- ===== src/Io.antt =====
-- src/io: where the bytes of experts are.
pub mod Layout
