-- ===== src/Correlator.antt =====
-- xprobe/correlator/src/lib.rs: event correlation.
pub mod Errors
pub mod Regex
pub mod Selector
pub mod Policy
pub mod Statistics
pub mod Pairs
pub mod Accounting
pub mod FirstAfter
pub mod StreamOrder
pub mod Nearest
pub mod Timeline
pub mod StackNested
pub mod Lifecycle
pub mod Exact
pub mod Checks
pub mod Measure
pub mod Examples
