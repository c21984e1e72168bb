-- ===== src/Where.antt =====
-- The where clauses of features and counters: truth tables, overlap, smart constructors.
pub mod Text
pub mod TruthTable
pub mod Stringify
pub mod Overlap
pub mod Tests
