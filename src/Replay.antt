-- ===== src/Replay.antt =====
-- droplet/replay.py: which requests of an access log are asked again, and how two hosts' answers are
-- compared.
pub mod Json
pub mod Keep
pub mod Requests
pub mod Answers
mod Tests
