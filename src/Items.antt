-- ===== src/Items.antt =====
-- Items: their attributes, and how they are saved and loaded (src/items/item.h and item.cpp).
pub mod ItemAttribute
pub mod Attributes
pub mod Serialize
pub mod Saving
pub mod Effects
pub mod Loaded
pub mod Fields
pub mod Customs
pub mod RoundTrip
pub mod Choices
pub mod Restored
