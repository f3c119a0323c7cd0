-- ===== src/Client.antt =====
-- Acquire/Client: what a client hands to a service.
pub mod Cheque
