-- ===== src/Lowering.antt =====
-- python/ramulator/workload_surrogate/generate_lpddr5_pim_concrete.py: semantic records lowered to
-- concrete opcodes.
pub mod Chunks
pub mod Modes
pub mod FlatBank
pub mod Host
pub mod Weights
pub mod Tests
