-- ===== src/Stores.antt =====
-- web/src/stores: the client's tables, in memory, and the keys and cursors that they share.
pub mod Keys
pub mod Cursor
pub mod Realm
pub mod Hosts
pub mod Msgs
pub mod Queues
pub mod Accounts
