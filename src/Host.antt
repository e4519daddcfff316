-- ===== src/Host.antt =====
-- The host: its storage, the check of a signed timestamp, and the handlers of the four calls.
pub mod Storage
pub mod Requests
pub mod Server
pub mod Guard
pub mod Http
