-- ===== src/Semantic.antt =====
-- Semantic records and their manifests: python/ramulator/workload_surrogate/structured_trace.py.
pub mod Kinds
pub mod Membership
pub mod Dataflow
pub mod Record
pub mod Manifest
pub mod Tests
