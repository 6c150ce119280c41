-- ===== src/Trace.antt =====
-- python/ramulator/workload_surrogate/lpddr5_pim_concrete_trace.py: the concrete opcode trace, its
-- header, its records and the mode protocol over a sequence of records.
pub mod Opcode
pub mod Header
pub mod Record
pub mod Interleave
pub mod Slim
pub mod Sequence
pub mod Tests
