-- ===== src/Login.antt =====
-- Admission of clients: the throttle on connections of one address, and the waiting list of a
-- full server.
pub mod Ban
pub mod WaitingList
