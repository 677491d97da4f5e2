-- ===== src/Tests.antt =====
-- Services in memory and runs on them: every theorem with conditions at a concrete input.
mod Memory
mod Names
mod Pipelines
mod Chunking
mod Storing
mod Retries
mod Requests
mod Processes
mod Sessions
