-- ===== src/Slots.antt =====
-- packages/sqrl/src/slot: the slots that the parser state gives to features and clauses.
pub mod Feature
pub mod Reason
pub mod Slot
