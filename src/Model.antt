-- ===== src/Model.antt =====
-- src/model: the model file's header, and what is derived from it.
pub mod Role
pub mod Gguf
pub mod Metadata
mod Tests
