-- ===== src/Store.antt =====
-- internal/store: the encrypted database.
pub mod Db
pub mod Laws
pub mod Events
pub mod Epochs
pub mod Outbox
pub mod Conversations
pub mod Apply
pub mod History
pub mod Pairing
pub mod Records
pub mod Network
