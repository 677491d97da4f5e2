-- ===== src/Ingestion/Pipeline.antt =====
-- apps/ingestion/pipeline.py: the shared parts; the two pipelines are in the children.
pub mod Rows
pub mod Hashing
pub mod Points
pub mod Locked
pub mod Frame
pub mod Upload
pub mod Delete
pub mod Locking
pub mod Refused
pub mod Isolation
