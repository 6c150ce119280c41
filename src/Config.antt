-- ===== src/Config.antt =====
-- The experiment manifests of python/ramulator/pimscope/config.py.
pub mod Check
pub mod Model
pub mod Workload
pub mod Hardware
pub mod Manifest
pub mod Overrides
pub mod Load
pub mod Tests
