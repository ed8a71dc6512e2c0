-- ===== src/Rust/Io.antt =====
-- `std::fs` as a parameter: what reading a path gives at a moment. The n-th read of a run sees the
-- n-th moment, so that a process may end and its number may be taken again between two reads.
use xprobe.Prelude.{ℕ, Bool, List}
use xprobe.Rust.Str.{Text}
use xprobe.Rust.Result.{Result}

-- `io::ErrorKind`, as far as the program looks at it.
pub data ErrorKind : Type 0 where
  not_found permission_denied other : ErrorKind

pub record Metadata : Type 0 where
  pub len : ℕ
  pub is_file : Bool

pub record FileSystem : Type 0 where
  pub read_to_string : Text → Result Text ErrorKind
  pub read : Text → Result (List ℕ) ErrorKind
  -- The target of a link, which need not be UTF-8.
  pub read_link : Text → Result (List ℕ) ErrorKind
  pub metadata : Text → Result Metadata ErrorKind
  pub canonicalize : Text → Result Text ErrorKind

abbrev pub Moments : Type 0
Moments = ℕ → FileSystem
