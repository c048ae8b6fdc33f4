-- ===== src/Indexer.antt =====
-- The Indexer service: packages/syntrix/internal/indexer.
pub mod OrderKey
pub mod Template
pub mod Store
pub mod MemStore
