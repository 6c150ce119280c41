-- ===== src/Addressing.antt =====
-- python/ramulator/dram/addressing.py: the hierarchy layout of a DRAM organization, and the
-- mapping of byte addresses to hierarchy vectors.
pub mod Radix
pub mod Vector
pub mod Layout
pub mod Validation
pub mod Bijection
pub mod Tests
