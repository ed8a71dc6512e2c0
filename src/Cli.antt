-- ===== src/Cli.antt =====
-- What is modelled of xprobe/cli/src/main.rs.
pub mod Hints
