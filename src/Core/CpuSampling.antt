-- ===== src/Core/CpuSampling.antt =====
-- xprobe/core/src/cpu_sampling.rs: what CPU sampling of a target needs. `local` stands for what
-- `doctor::run` returns, `parse_object` for the `object` crate, and `read_dir` for the listing of a
-- directory.
pub mod Threads
pub mod Python
use xprobe.Prelude.{
  ◌-◌, ℕ, ◌+◌, ◌^◌, Bool, true, false, not, ◌&&◌, ◌||◌, leb, ltb, ◌==◌, if◌then◌else◌, Option, none,
  some, List, [], ◌∷◌, ◌++◌, map, length, any, is_empty, is_some_and, decided, unwrap_or,
}
use xprobe.Rust.Str.{Text, text, text_eq, starts_with}
use xprobe.Rust.Words.{u64_mod}
use xprobe.Rust.Ord.{nat_ord, list_ord}
use xprobe.Rust.BTreeMap.{BTreeMap, insert}
use xprobe.Rust.Fmt.{decimal, parse_unsigned, u32_mod}
use xprobe.Rust.Io.{ErrorKind, FileSystem, Moments}
use xprobe.Rust.Result.{Result, ok, err, ◌>>=◌, ◌>>◌, ok_or, fail_if, map_err}
use xprobe.Rust.Lines.{valid_utf8}
use xprobe.Protocol.Event.{SchemaVersion}
use xprobe.Protocol.Errors.{ErrorCode}
use xprobe.Protocol.Measurement.{Warning}
use xprobe.Protocol.Process.{
  ProcessReport, CapabilityReport, CheckResult, CheckStatus, CheckStatus-discrete, ValidationIssue,
}
use xprobe.Protocol.Validate.{TargetIdentity}
use xprobe.Protocol.CpuSampling.{PythonSymbolizationStatus, CpuSamplingValidationResult}
use xprobe.Core.Report.{warning}
use xprobe.Core.Object.{ObjectFile, ObjectSymbol}
use xprobe.Core.Inspect.{verify_target}
use xprobe.Core.Inspect.Fields.{InspectError, file_name}
use xprobe.Core.Inspect.Fields
use xprobe.Core.CpuAnalysis.PerfMap.{max_perf_map_bytes, perf_map_path}
use xprobe.Core.CpuAnalysis.Symbols.{Components, components}
use xprobe.Core.CpuSampling.Threads.{CpuSamplingError, target_thread_ids, thread_count}
use xprobe.Core.CpuSampling.Python.{python_symbolization_status, python_warnings}

-- `value.parse::<i32>().ok().is_some_and(|value| value <= 2)`: an optional sign and at least one digit.
unfoldable at_most_two : (value : Text) → Bool
unfolding parse_unsigned
at_most_two [] = false
at_most_two (c ∷ s) =
    if c == b'-'
    then is_some_and (unsigned_digits s) (λ n. leb n (2 ^ 31))
    else is_some_and (parse_unsigned (2 ^ 31) (c ∷ s)) (λ n. leb n 2)
  where
    unsigned_digits : Text → Option ℕ
    unsigned_digits [] = none
    unsigned_digits (d ∷ t) = if d == b'+' then none else parse_unsigned (2 ^ 31 + 1) (d ∷ t)

module _ {V : Type 0} where
  unfoldable sampling_allowed : CapabilityReport V → (target_effective_uid : ℕ) → Bool
  unfolding at_most_two
  sampling_allowed report target_effective_uid =
      report.environment.effective_uid == 0
      || report.capabilities.uprobe
      || report.environment.effective_uid == target_effective_uid
        && is_some_and report.checks.perf_event_paranoid.detail at_most_two

  unfoldable effective_perf_check : CapabilityReport V → (target_effective_uid : ℕ) → CheckResult
  unfolding sampling_allowed
  effective_perf_check report target_effective_uid =
      if sampling_allowed report target_effective_uid
      then record {
        status = CheckStatus.available;
        detail = some (
            text "PID-scoped user-space sampling is permitted; perf_event_paranoid="
            ++ unwrap_or report.checks.perf_event_paranoid.detail (text "unknown"));
      }
      else report.checks.perf_event_paranoid

-- `perf_event.status != CheckStatus::Available`.
abbrev is_restricted : CheckResult → Bool
unfolding CheckStatus-discrete
is_restricted check = not (decided (CheckStatus-discrete check.status CheckStatus.available))

module _ {D : Type 0} (V : Type 0) (parse_object : List ℕ → Result ObjectFile Text) where
  -- The moments: the verifications are 0, 1, 2 and 4, two of them around the listing of the threads,
  -- and the files of Python are looked at at 3.
  unfoldable pub validate :
      Moments
      → (read_dir : Text → Result (List (Result (List ℕ) ErrorKind)) ErrorKind)
      → (local : Result (CapabilityReport V) D) → ProcessReport
      → Result (CpuSamplingValidationResult V) (CpuSamplingError D)
  unfolding verify_target target_thread_ids thread_count effective_perf_check
      python_symbolization_status is_restricted
  validate fs read_dir local report = do
    map_err CpuSamplingError.inspect (verify_target (fs 0) report.target)
    threads ← target_thread_ids (λ n. fs (n + 1)) read_dir report.target
    target_threads ← thread_count threads
    capabilities ← map_err CpuSamplingError.doctor local
    python_status ← python_symbolization_status parse_object (fs 3) report
    map_err CpuSamplingError.inspect (verify_target (fs 4) report.target)
    let perf_event = effective_perf_check capabilities report.credentials.effective_uid in
        let issues : List ValidationIssue =
          if is_restricted perf_event
          then record {
            code = ErrorCode.permission_denied;
            message = text "CPU sampling is restricted by the effective perf event policy";
          }
            ∷ []
          else [] in
        ok (record {
          schema_version = SchemaVersion.v2;
          ok = true;
          valid = is_empty issues;
          target = report.target;
          target_threads = target_threads;
          requirements = record { needs_perf_event = true; target_mutation = false };
          perf_event = perf_event;
          python_status = python_status;
          issues = issues;
          warnings = python_warnings V python_status;
        })
