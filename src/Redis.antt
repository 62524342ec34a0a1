-- ===== src/Redis.antt =====
-- internal/store/redis: the store over a Redis server. Server is what the code relies on of the
-- server and its client, Store the code, and the others are about it.
pub mod Server
pub mod Numbers
pub mod Store
pub mod Keys
pub mod Reads
pub mod Logs
pub mod Append
pub mod Writes
pub mod Deletes
pub mod Expired
pub mod Contract
pub mod Samples
mod Tests
