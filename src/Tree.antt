-- ===== src/Tree.antt =====
-- droplet/check_volume_tree.py: what of a directory tree would not survive a copy onto a FAT volume.
pub mod Names
pub mod Paths
pub mod Check
mod Tests
