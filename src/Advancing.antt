-- ===== src/Advancing.antt =====
-- How players advance: magic level and skills, and the level by experience, of
-- src/creatures/players/player.cpp and src/creatures/players/vocations/vocation.cpp.
pub mod Vocation
pub mod Tries
pub mod Sums
pub mod Totals
pub mod Losses
pub mod Requirements
pub mod Ledger
pub mod Experience
pub mod ExpTable
pub mod Levels
pub mod Careers
