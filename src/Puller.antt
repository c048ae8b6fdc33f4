-- ===== src/Puller.antt =====
-- The Puller service, which captures the changes of the document store:
-- packages/syntrix/internal/puller.
pub mod Events
pub mod Coalescer
pub mod Flow
