-- ===== src/Core/CpuSampling/Threads.antt =====
-- The errors of xprobe/core/src/cpu_sampling.rs and its `target_thread_ids`. `read_dir` stands for the
-- listing of a directory. The value of an error is kept in its bytes.
use xprobe.Rust.Lines.Lossy.{from_utf8_lossy}
use xprobe.Prelude.{
  ◌-◌, ℕ, Bool, true, false, not, ltb, if◌then◌else◌, List, [], ◌∷◌, ◌++◌, map, length,
}
use xprobe.Rust.Str.{Text, text}
use xprobe.Rust.Words.{u64_mod}
use xprobe.Rust.Ord.{nat_ord, list_ord}
use xprobe.Rust.BTreeMap.{BTreeMap, insert}
use xprobe.Rust.Fmt.{decimal, parse_unsigned, u32_mod}
use xprobe.Rust.Io.{ErrorKind, Moments}
use xprobe.Rust.Result.{Result, ok, err, ◌>>=◌, ◌>>◌, ok_or, fail_if, map_err}
use xprobe.Rust.Lines.{valid_utf8}
use xprobe.Protocol.Errors.{ErrorCode}
use xprobe.Protocol.Validate.{TargetIdentity}
use xprobe.Core.Inspect.{verify_target}
use xprobe.Core.Inspect.Fields.{InspectError, file_name}
use xprobe.Core.Inspect.Fields

pub data CpuSamplingError (D : Type 0) : Type 0 where
  inspect : InspectError D → CpuSamplingError D
  doctor : D → CpuSamplingError D
  io : (path : Text) (source : ErrorKind) → CpuSamplingError D
  invalid_elf : (path reason : Text) → CpuSamplingError D
  invalid_task : (path value : Text) → CpuSamplingError D
  limit : (name : Text) (value : ℕ) → CpuSamplingError D

module _ {D : Type 0} where
  unfoldable pub code : CpuSamplingError D → ErrorCode
  unfolding Fields.code
  code (CpuSamplingError.inspect error) = Fields.code error
  code (CpuSamplingError.io path ErrorKind.permission_denied) = ErrorCode.permission_denied
  code (CpuSamplingError.io path _) = ErrorCode.internal
  code (CpuSamplingError.limit name value) = ErrorCode.session_limit_exceeded
  code (CpuSamplingError.doctor error) = ErrorCode.internal
  code (CpuSamplingError.invalid_elf path reason) = ErrorCode.internal
  code (CpuSamplingError.invalid_task path value) = ErrorCode.internal

  unfoldable pub recoverable : CpuSamplingError D → Bool
  unfolding Fields.recoverable
  recoverable (CpuSamplingError.inspect error) = Fields.recoverable error
  recoverable (CpuSamplingError.io path ErrorKind.other) = false
  recoverable (CpuSamplingError.io path _) = true
  recoverable (CpuSamplingError.limit name value) = true
  recoverable (CpuSamplingError.doctor error) = false
  recoverable (CpuSamplingError.invalid_elf path reason) = false
  recoverable (CpuSamplingError.invalid_task path value) = false

  -- The loop over `/proc/<pid>/task`: `BTreeSet<u32>` of the names, each of which may fail to be read.
  unfoldable thread_set :
      (path : Text)
      → List (Result (List ℕ) ErrorKind)
      → Result (BTreeMap ℕ (Unit {0})) (CpuSamplingError D)
  unfolding valid_utf8 from_utf8_lossy parse_unsigned insert
  thread_set path [] = ok []
  thread_set path (entry ∷ rest) = do
    name ← map_err (CpuSamplingError.io path) entry
    fail_if (not (valid_utf8 name)) (CpuSamplingError.invalid_task path (from_utf8_lossy name))
    tid ← ok_or (parse_unsigned u32_mod name) (CpuSamplingError.invalid_task path name)
    threads ← thread_set path rest
    ok (insert tid tt threads)

  -- `read_dir` gives the entries of the directory at the moment between the two verifications.
  unfoldable pub target_thread_ids :
      Moments
      → (read_dir : Text → Result (List (Result (List ℕ) ErrorKind)) ErrorKind) → TargetIdentity
      → Result (List ℕ) (CpuSamplingError D)
  unfolding verify_target thread_set decimal
  target_thread_ids fs read_dir target =
      let path = text "/proc/" ++ decimal target.pid ++ text "/task" in
      do
        map_err CpuSamplingError.inspect (verify_target (fs 0) target)
        entries ← map_err (CpuSamplingError.io path) (read_dir path)
        threads ← thread_set path entries
        map_err CpuSamplingError.inspect (verify_target (fs 1) target)
        ok (map (λ (entry : ℕ × Unit {0}). entry.0) threads)

  -- From the threads to their number.
  unfoldable pub thread_count : List ℕ → Result ℕ (CpuSamplingError D)
  thread_count threads =
      let count = length threads in
      if ltb count u32_mod
      then ok count
      else err (
          CpuSamplingError.limit (text "thread count")
            (if ltb count u64_mod then count else u64_mod - 1))
