-- ===== src/Protocol/SyscallAggregate.antt =====
-- xprobe/protocol/src/syscall_aggregate.rs: the request for a syscall aggregate and its result, with
-- `AggregateDuration` of xprobe/protocol/src/measurement.rs. `F` stands for `f64`, `V` for a JSON value.
use xprobe.Prelude.{ℕ, Bool, Option, List}
use xprobe.Rust.Str.{Text}
use xprobe.Protocol.Event.{SchemaVersion}
use xprobe.Protocol.Measurement.{Warning, SessionStatus}
use xprobe.Protocol.Validate.{TargetIdentity}
use xprobe.Protocol.Process.{CheckResult, ValidationIssue}

pub record SyscallAggregateSpec : Type 0 where
  pub schema_version : SchemaVersion
  pub name : Option Text
  pub target : TargetIdentity
  pub duration_ms : ℕ
  pub timeout_ms : ℕ
  pub max_groups : ℕ
  pub max_inflight : ℕ

pub record AggregateDuration (F : Type 0) : Type 0 where
  pub min : ℕ
  pub mean : F
  pub max : ℕ
  pub total : ℕ

pub record SyscallAggregateGroup (F : Type 0) : Type 0 where
  pub syscall_number : ℕ
  pub syscall_name : Option Text
  pub count : ℕ
  pub errors : ℕ
  pub duration_ns : AggregateDuration F
  pub entry_selector_hint : Option Text
  pub exit_selector_hint : Option Text

pub record SyscallAggregateInventory (F : Type 0) : Type 0 where
  pub name : Option Text
  pub duration_ms : ℕ
  pub groups : List (SyscallAggregateGroup F)

pub data SyscallAggregateCompleteness : Type 0 where
  complete incomplete : SyscallAggregateCompleteness

pub record SyscallAggregateCollectionSummary (F : Type 0) : Type 0 where
  pub completeness : SyscallAggregateCompleteness
  pub observed_entries : ℕ
  pub matched_exits : ℕ
  pub unmatched_exits : ℕ
  pub inflight_at_end : ℕ
  pub dropped_aggregates : ℕ
  pub group_capacity : ℕ
  pub groups : ℕ
  pub table_utilization : F

pub record SyscallAggregateResult (F V : Type 0) : Type 0 where
  pub schema_version : SchemaVersion
  pub ok : Bool
  pub session_id : Text
  pub status : SessionStatus
  pub target : TargetIdentity
  pub inventory : SyscallAggregateInventory F
  pub collection : SyscallAggregateCollectionSummary F
  pub warnings : List (Warning V)

pub record SyscallAggregateRequirements : Type 0 where
  pub needs_ebpf : Bool
  pub target_mutation : Bool

pub record SyscallAggregateValidationResult (V : Type 0) : Type 0 where
  pub schema_version : SchemaVersion
  pub ok : Bool
  pub valid : Bool
  pub target : TargetIdentity
  pub requirements : SyscallAggregateRequirements
  pub ebpf : CheckResult
  pub issues : List ValidationIssue
  pub warnings : List (Warning V)
