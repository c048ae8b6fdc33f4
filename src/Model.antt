-- ===== src/Model.antt =====
-- Document values: packages/syntrix/pkg/model.
pub mod Number
pub mod Value
pub mod Filter
