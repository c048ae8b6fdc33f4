-- ===== src/Streamer.antt =====
-- The Streamer: packages/syntrix/internal/streamer.
pub mod Subscription
pub mod Exact
pub mod Registry
pub mod Serving
pub mod Cuts
pub mod Expressions
pub mod Contract
