-- ===== src/Stdlib.antt =====
-- The functions that rules can call: packages/sqrl/src/function.
pub mod Logic
