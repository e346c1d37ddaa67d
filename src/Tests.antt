-- ===== src/Tests.antt =====
-- Concrete inputs: a geocoder that counts its calls, and the theorems applied to it.
pub mod Data
mod Geocoders
mod Pipeline
mod Addresses
mod Cache
mod Stores
mod CommandLine
mod Server
mod Metrics
mod LibpostalRust
mod ChunkCount
mod MemoryUsed
mod Reading
mod Smarty
mod Threads
mod CacheTwice
