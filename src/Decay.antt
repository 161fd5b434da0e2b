-- ===== src/Decay.antt =====
-- The items that decay: src/items/decay/decay.cpp, with the attributes of src/items/item.h that it
-- reads and writes, and the functions of src/game/game.cpp that reach it.
pub mod Items
pub mod Entries
pub mod Timetable
pub mod Places
pub mod Checks
pub mod Histories
pub mod Keeping
pub mod Counting
pub mod References
pub mod Order
pub mod Due
pub mod Ascending
pub mod Pending
pub mod Awaiting
pub mod Vigil
