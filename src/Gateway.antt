-- ===== src/Gateway.antt =====
-- The limits of the real-time gateway: packages/syntrix/internal/gateway/realtime.
pub mod ReplicaBudget
