-- ===== src/Pipeline.antt =====
-- src/pipeline.rs: read a CSV file in chunks, geocode the chunks, and write them.
pub mod Retry
pub mod Geocode
pub mod Read
pub mod Write
pub mod Rectangular
pub mod Background
pub mod Stdio
pub mod ChunkCount
pub mod Threads
