-- ===== src/Mutate.antt =====
-- tools/mutate_run.py, tools/mutate_tcp.py and tools/mutate_guards.py: sources broken one way at a time,
-- and what the tests say of each.
pub mod Verdict
pub mod Apply
pub mod Runs
pub mod Tables
pub mod Tests
