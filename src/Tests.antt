-- ===== src/Tests.antt =====
-- Runs of the models on concrete inputs, and each result at an input that meets its conditions.
mod Message
mod Cipher
mod Decay
mod Delivery
mod Login
mod Scheduling
mod Accounts
mod Advancing
mod NameTree
mod Grouping
mod Loading
mod Items
