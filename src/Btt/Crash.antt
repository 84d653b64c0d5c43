-- ===== src/Btt/Crash.antt =====
-- A power failure at any point of btt_write, and the recovery by read_flogs.
mod Fate
pub mod Restart
pub mod Atomic
