-- ===== src/Core/CpuAnalysis/Errors.antt =====
-- `CpuAnalysisError` and `CpuCaptureData` of xprobe/core/src/cpu_sampling_analysis.rs.
use xprobe.Prelude.{ℕ, Bool, true, false, List}
use xprobe.Rust.Str.{Text}
use xprobe.Rust.Io.{ErrorKind}
use xprobe.Protocol.Errors.{ErrorCode}
use xprobe.Protocol.CpuSampling.{PythonSymbolizationStatus}
use xprobe.Core.Inspect.Fields.{InspectError}
use xprobe.Core.Inspect.Fields

pub record RawCpuSample : Type 0 where
  pub thread_id : ℕ
  pub addresses : List ℕ

pub record CpuCaptureData : Type 0 where
  pub samples : List RawCpuSample
  pub observed_samples : ℕ
  pub lost_samples : ℕ
  pub truncated_stacks : ℕ
  pub throttled_records : ℕ
  pub threads_observed : ℕ
  pub threads_attached : ℕ
  pub skipped_threads : List ℕ
  pub capacity_reached : Bool
  pub python_status : PythonSymbolizationStatus

pub data CpuAnalysisError (D : Type 0) : Type 0 where
  inspect : InspectError D → CpuAnalysisError D
  io : (path : Text) (source : ErrorKind) → CpuAnalysisError D
  invalid_maps invalid_perf_map : (path reason : Text) → CpuAnalysisError D
  invalid_utf8 : (path : Text) → CpuAnalysisError D
  limit : (name : Text) (value : ℕ) → CpuAnalysisError D

module _ {D : Type 0} where
  unfoldable pub code : CpuAnalysisError D → ErrorCode
  unfolding Fields.code
  code (CpuAnalysisError.inspect error) = Fields.code error
  code (CpuAnalysisError.io path ErrorKind.permission_denied) = ErrorCode.permission_denied
  code (CpuAnalysisError.io path _) = ErrorCode.internal
  code (CpuAnalysisError.limit name value) = ErrorCode.session_limit_exceeded
  code (CpuAnalysisError.invalid_maps path reason) = ErrorCode.internal
  code (CpuAnalysisError.invalid_perf_map path reason) = ErrorCode.internal
  code (CpuAnalysisError.invalid_utf8 path) = ErrorCode.internal

  unfoldable pub recoverable : CpuAnalysisError D → Bool
  unfolding Fields.recoverable
  recoverable (CpuAnalysisError.inspect error) = Fields.recoverable error
  recoverable (CpuAnalysisError.io path ErrorKind.other) = false
  recoverable (CpuAnalysisError.io path _) = true
  recoverable (CpuAnalysisError.limit name value) = true
  recoverable (CpuAnalysisError.invalid_maps path reason) = false
  recoverable (CpuAnalysisError.invalid_perf_map path reason) = false
  recoverable (CpuAnalysisError.invalid_utf8 path) = false
