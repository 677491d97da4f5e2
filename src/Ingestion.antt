-- ===== src/Ingestion.antt =====
-- apps/ingestion: embedding, chunking, payloads, locks and the two pipelines.
pub mod Embedder
pub mod Chunker
pub mod Payload
pub mod Locks
pub mod World
pub mod Pipeline
pub mod Warmup
pub mod Shelf
pub mod Start
