-- ===== src/Copy.antt =====
-- The programs that compare, copy and replay (droplet/): the comparison of a copy with a volume.
pub mod Compare
mod Tests
