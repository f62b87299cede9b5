-- ===== src/Mutate/Tables.antt =====
-- The two tables of mutants.
pub mod Sending
pub mod Receiving
pub mod Guarded
pub mod Changes
