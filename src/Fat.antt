-- ===== src/Fat.antt =====
pub mod Bytes
pub mod Volume
pub mod Chain
pub mod DosTime
pub mod Dirent
pub mod Entries
pub mod Walk
pub mod Check
pub mod TestImage
mod Tests
