-- ===== src/Database.antt =====
-- The logical databases: packages/syntrix/internal/core/database. Times are numbers from one clock; an
-- operation reads it once.
pub mod Types
pub mod Identifier
pub mod Cache
pub mod Lookups
pub mod Service
pub mod Operations
