-- ===== src/Addresses.antt =====
-- src/addresses.rs: addresses, the columns that hold them, and the spec of a CSV file.
pub mod Address
pub mod Columns
pub mod Spec
pub mod Indices
