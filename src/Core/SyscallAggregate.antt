-- ===== src/Core/SyscallAggregate.antt =====
-- xprobe/core/src/syscall_aggregate.rs. The moments 0 and 1 are those of the two verifications of the
-- target, and `local` stands for what `doctor::run` returns.
pub mod Names
pub mod Order
pub mod Hints
pub mod Examples
use xprobe.Prelude.{
  ◌-◌, ℕ, max, Bool, true, false, not, ◌&&◌, ◌||◌, ltb, ◌==◌, if◌then◌else◌, Option, none, some,
  List, [], ◌∷◌, ◌++◌, map, length, select, is_empty, compare,
}
use xprobe.Rust.Str.{Text, text}
use xprobe.Rust.Words.{u64_mod}
use xprobe.Rust.Ord.{then_cmp}
use xprobe.Rust.Sort.{sort_by}
use xprobe.Rust.Fmt.{decimal}
use xprobe.Rust.Io.{Moments}
use xprobe.Rust.Result.{Result, ok, err, ◌>>=◌, ◌>>◌, map_err}
use xprobe.Correlator.Statistics.{Float}
use xprobe.Protocol.Event.{SchemaVersion}
use xprobe.Protocol.Errors.{ErrorCode}
use xprobe.Protocol.Measurement.{Warning, SessionStatus}
use xprobe.Protocol.Process.{ProcessReport, CapabilityReport, ValidationIssue}
use xprobe.Protocol.SyscallAggregate.{
  SyscallAggregateSpec, AggregateDuration, SyscallAggregateGroup, SyscallAggregateCompleteness,
  SyscallAggregateResult, SyscallAggregateValidationResult,
}
use xprobe.Core.Report.{ratio, warning}
use xprobe.Core.Inspect.{verify_target}
use xprobe.Core.Inspect.Fields.{InspectError}
use xprobe.Core.Inspect.Fields
use xprobe.Core.CpuAnalysis.Stacks.{is_le}
use xprobe.Core.SyscallAggregate.Names.{syscall_name}

pub record RawSyscallGroup : Type 0 where
  pub syscall_number : ℕ
  pub count : ℕ
  pub errors : ℕ
  pub total_duration_ns : ℕ
  pub min_duration_ns : ℕ
  pub max_duration_ns : ℕ

pub record SyscallCaptureData : Type 0 where
  pub groups : List RawSyscallGroup
  pub observed_entries : ℕ
  pub matched_exits : ℕ
  pub unmatched_exits : ℕ
  pub dropped_aggregates : ℕ
  pub inflight_at_end : ℕ

pub data SyscallAggregateError (D : Type 0) : Type 0 where
  inspect : InspectError D → SyscallAggregateError D
  doctor : D → SyscallAggregateError D

module _ {D : Type 0} where
  unfoldable pub code : SyscallAggregateError D → ErrorCode
  unfolding Fields.code
  code (SyscallAggregateError.inspect error) = Fields.code error
  code (SyscallAggregateError.doctor error) = ErrorCode.internal

  unfoldable pub recoverable : SyscallAggregateError D → Bool
  unfolding Fields.recoverable
  recoverable (SyscallAggregateError.inspect error) = Fields.recoverable error
  recoverable (SyscallAggregateError.doctor error) = false

module _ {D : Type 0} (V : Type 0) where
  unfoldable pub validate :
      Moments
      → (local : Result (CapabilityReport V) D) → ProcessReport
      → Result (SyscallAggregateValidationResult V) (SyscallAggregateError D)
  unfolding verify_target
  validate fs local report = do
    map_err SyscallAggregateError.inspect (verify_target (fs 0) report.target)
    capabilities ← map_err SyscallAggregateError.doctor local
    map_err SyscallAggregateError.inspect (verify_target (fs 1) report.target)
    let issues : List ValidationIssue =
          if not report.capabilities.tracepoint
          then record {
            code = ErrorCode.permission_denied;
            message = text "syscall aggregation requires effective eBPF tracepoint privileges";
          }
            ∷ []
          else [] in
        ok (record {
          schema_version = SchemaVersion.v2;
          ok = true;
          valid = is_empty issues;
          target = report.target;
          requirements = record { needs_ebpf = true; target_mutation = false };
          ebpf = capabilities.checks.ebpf_permissions;
          issues = issues;
          warnings = [];
        })

-- The selector of a syscall's boundary.
abbrev pub syscall_hint : (boundary name : Text) → Text
syscall_hint boundary name = text "syscall:" ++ name ++ text ":" ++ boundary

module _ (f : Float) where
  open f use {F}

  unfoldable pub normalize_group : RawSyscallGroup → SyscallAggregateGroup F
  normalize_group group =
      let name = syscall_name group.syscall_number in
      record {
        syscall_number = group.syscall_number;
        syscall_name = name;
        count = group.count;
        errors = group.errors;
        duration_ns = record {
          min = group.min_duration_ns;
          mean = ratio f group.total_duration_ns group.count;
          max = group.max_duration_ns;
          total = group.total_duration_ns;
        };
        entry_selector_hint = elim name [
          | none ↦ none
          | some n ↦ some (syscall_hint (text "entry") n)
        ];
        exit_selector_hint = elim name [
          | none ↦ none
          | some n ↦ some (syscall_hint (text "exit") n)
        ];
      }

  -- More time first, then more calls, then the lower number.
  abbrev pub costlier : SyscallAggregateGroup F → SyscallAggregateGroup F → Bool
  costlier left right = is_le (
      then_cmp
        (then_cmp (compare right.duration_ns.total left.duration_ns.total)
          (compare right.count left.count))
        (compare left.syscall_number right.syscall_number))

  unfoldable pub normalize_groups : List RawSyscallGroup → List (SyscallAggregateGroup F)
  unfolding normalize_group sort_by
  normalize_groups groups =
      sort_by costlier (map normalize_group (select (λ group. not (group.count == 0)) groups))

-- No lifecycle was lost, left open or met without its start.
unfoldable pub is_complete : SyscallCaptureData → Bool
is_complete capture =
    capture.unmatched_exits == 0 && capture.inflight_at_end == 0 && capture.dropped_aggregates == 0

module _ (V : Type 0) where
  unfoldable pub capture_warnings : SyscallCaptureData → List (Warning V)
  unfolding decimal
  capture_warnings capture =
      (if not (capture.dropped_aggregates == 0)
        then warning V (text "SYSCALL_AGGREGATES_DROPPED") (
            decimal capture.dropped_aggregates
            ++ text
                " syscall lifecycles could not be retained; increase max_groups or max_inflight")
          ∷ []
        else [])
      ++ (if not (capture.unmatched_exits == 0) || not (capture.inflight_at_end == 0)
          then warning V (text "SYSCALL_LIFECYCLES_UNMATCHED") (
              decimal capture.unmatched_exits
              ++ text " exits had no start and "
              ++ decimal capture.inflight_at_end
              ++ text " starts remained open at capture end")
            ∷ []
          else [])

module _ (f : Float) (V : Type 0) where
  open f use {F}

  -- The result; `u64::try_from` on the number of groups cannot fail on a 64-bit target.
  unfoldable pub result_of :
      ProcessReport
      → SyscallAggregateSpec
      → (session_id : Text) → SyscallCaptureData
      → SyscallAggregateResult F V
  unfolding normalize_groups is_complete capture_warnings ratio
  result_of report spec session_id capture =
      let groups =
        if ltb (length capture.groups) u64_mod then length capture.groups else u64_mod - 1 in
      record {
        schema_version = SchemaVersion.v2;
        ok = true;
        session_id = session_id;
        status = SessionStatus.completed;
        target = report.target;
        inventory = record {
          name = spec.name;
          duration_ms = spec.duration_ms;
          groups = normalize_groups f capture.groups;
        };
        collection = record {
          completeness =
              if is_complete capture
              then SyscallAggregateCompleteness.complete
              else SyscallAggregateCompleteness.incomplete;
          observed_entries = capture.observed_entries;
          matched_exits = capture.matched_exits;
          unmatched_exits = capture.unmatched_exits;
          inflight_at_end = capture.inflight_at_end;
          dropped_aggregates = capture.dropped_aggregates;
          group_capacity = spec.max_groups;
          groups = groups;
          table_utilization = ratio f groups (max spec.max_groups 1);
        };
        warnings = capture_warnings V capture;
      }

  unfoldable pub analyze :
      {D : Type 0}
      → Moments
      → ProcessReport
      → SyscallAggregateSpec
      → (session_id : Text) → SyscallCaptureData
      → Result (SyscallAggregateResult F V) (SyscallAggregateError D)
  unfolding verify_target result_of
  analyze fs report spec session_id capture = do
    map_err SyscallAggregateError.inspect (verify_target (fs 0) report.target)
    map_err SyscallAggregateError.inspect (verify_target (fs 1) report.target)
    ok (result_of report spec session_id capture)
