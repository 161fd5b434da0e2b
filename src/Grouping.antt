-- ===== src/Grouping.antt =====
-- Parties of players: src/creatures/players/grouping/party.cpp, the handlers of
-- src/game/game.cpp that reach it, and the pointers that src/creatures/players/player.cpp keeps.
pub mod State
pub mod Experience
pub mod Party
pub mod Handlers
pub mod Invariant
pub mod Disband
pub mod Preserved
pub mod Histories
pub mod Outcomes
