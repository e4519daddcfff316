-- ===== src/Client.antt =====
-- Parts of the sync client in web/src: batches of requests, the order of heads, and shared passes.
pub mod Batch
pub mod Hlc
pub mod Coalesce
pub mod Singleton
