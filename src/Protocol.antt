-- ===== src/Protocol.antt =====
-- The data types of xprobe/protocol that the modelled components exchange.
pub mod Event
pub mod Measurement
pub mod Errors
pub mod Validate
pub mod Process
pub mod CpuSampling
pub mod SyscallAggregate
