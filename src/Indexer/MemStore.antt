-- ===== src/Indexer/MemStore.antt =====
-- The index store in memory: packages/syntrix/internal/indexer/mem_store.
pub mod Tree
pub mod Database
pub mod Projections
pub mod Patterns
pub mod Generations
pub mod Views
pub mod Histories
pub mod Index
