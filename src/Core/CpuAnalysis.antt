-- ===== src/Core/CpuAnalysis.antt =====
-- xprobe/core/src/cpu_sampling_analysis.rs.
pub mod Errors
pub mod Maps
pub mod PerfMap
pub mod Symbols
pub mod Stacks
pub mod Hotspots
pub mod Analyze
pub mod Summary
pub mod Examples
