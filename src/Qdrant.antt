-- ===== src/Qdrant.antt =====
-- apps/qdrant_core: the client, retries, the collection of a bot, and the hybrid search.
pub mod Client
pub mod Retry
pub mod Schema
pub mod Collection
pub mod Search
