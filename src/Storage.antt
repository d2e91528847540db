-- ===== src/Storage.antt =====
-- src/storage: files that are replaced as a whole, and the fence that keeps a former owner from writing.
pub mod Effects
pub mod Rules
pub mod Documents
