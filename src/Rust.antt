-- ===== src/Rust.antt =====
-- What the program uses of Rust's standard library.
pub mod Sort
pub mod Ord
pub mod BTreeMap
pub mod Str
pub mod Words
pub mod Result
pub mod Fmt
pub mod Lines
pub mod Io
