-- ===== src/Core.antt =====
-- What is modelled of xprobe/core.
pub mod Policy
pub mod Selectors
pub mod Inspect
pub mod Object
pub mod Report
pub mod CpuAnalysis
pub mod SyscallAggregate
pub mod SyscallNumbers
pub mod Resolve
pub mod Usdt
pub mod CuptiCompat
pub mod Validate
pub mod CpuSampling
