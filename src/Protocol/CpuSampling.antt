-- ===== src/Protocol/CpuSampling.antt =====
-- xprobe/protocol/src/cpu_sampling.rs: the request for a CPU sample inventory and its result. `F`
-- stands for `f64` and `V` for a JSON value.
use xprobe.Prelude.{ℕ, Bool, Option, List}
use xprobe.Rust.Str.{Text}
use xprobe.Protocol.Event.{SchemaVersion}
use xprobe.Protocol.Measurement.{Warning, SessionStatus}
use xprobe.Protocol.Validate.{TargetIdentity}
use xprobe.Protocol.Process.{CheckResult, ValidationIssue}

pub data CpuSampleEvent : Type 0 where
  cpu_clock : CpuSampleEvent

pub record CpuSamplingSpec : Type 0 where
  pub schema_version : SchemaVersion
  pub name : Option Text
  pub target : TargetIdentity
  pub sample_event : CpuSampleEvent
  pub frequency_hz : ℕ
  pub duration_ms : ℕ
  pub timeout_ms : ℕ
  pub max_samples : ℕ
  pub max_groups : ℕ
  pub stack_depth : ℕ
  pub max_threads : ℕ

pub data CpuFrameLanguage : Type 0 where
  native python unknown : CpuFrameLanguage

pub record CpuStackFrame : Type 0 where
  pub address : ℕ
  pub module_path : Option Text
  pub build_id : Option Text
  pub file_offset : Option ℕ
  pub symbol : Option Text
  pub symbol_offset : Option ℕ
  pub language : CpuFrameLanguage
  pub source_path : Option Text
  pub line : Option ℕ

pub record CpuStackGroup (F : Type 0) : Type 0 where
  pub frames : List CpuStackFrame
  pub samples : ℕ
  pub proportion : F

pub record CpuHotspot (F : Type 0) : Type 0 where
  pub frame : CpuStackFrame
  pub inclusive_samples : ℕ
  pub exclusive_samples : ℕ
  pub inclusive_proportion : F
  pub exclusive_proportion : F
  pub entry_selector_hint : Option Text
  pub return_selector_hint : Option Text

pub record CpuSampleInventory (F : Type 0) : Type 0 where
  pub name : Option Text
  pub sample_event : CpuSampleEvent
  pub frequency_hz : ℕ
  pub duration_ms : ℕ
  pub stack_groups : List (CpuStackGroup F)
  pub hotspots : List (CpuHotspot F)

pub data PythonSymbolizationStatus : Type 0 where
  not_detected inactive active unsupported : PythonSymbolizationStatus

unfoldable pub PythonSymbolizationStatus-discrete : Discrete PythonSymbolizationStatus
PythonSymbolizationStatus-discrete = hlevel

pub data CpuCaptureCompleteness : Type 0 where
  complete incomplete : CpuCaptureCompleteness

pub record CpuSampleCollectionSummary (F : Type 0) : Type 0 where
  pub completeness : CpuCaptureCompleteness
  pub observed_samples : ℕ
  pub grouped_samples : ℕ
  pub lost_samples : ℕ
  pub sample_capacity : ℕ
  pub group_capacity : ℕ
  pub groups : ℕ
  pub table_utilization : F
  pub stack_depth : ℕ
  pub truncated_stacks : ℕ
  pub threads_observed : ℕ
  pub threads_attached : ℕ
  pub thread_capacity : ℕ

pub record CpuSymbolizationSummary : Type 0 where
  pub total_frames : ℕ
  pub resolved_native_frames : ℕ
  pub resolved_python_frames : ℕ
  pub unresolved_frames : ℕ
  pub python_status : PythonSymbolizationStatus

pub record CpuSampleInventoryResult (F V : Type 0) : Type 0 where
  pub schema_version : SchemaVersion
  pub ok : Bool
  pub session_id : Text
  pub status : SessionStatus
  pub target : TargetIdentity
  pub inventory : CpuSampleInventory F
  pub collection : CpuSampleCollectionSummary F
  pub symbolization : CpuSymbolizationSummary
  pub warnings : List (Warning V)

pub record CpuSamplingRequirements : Type 0 where
  pub needs_perf_event : Bool
  pub target_mutation : Bool

pub record CpuSamplingValidationResult (V : Type 0) : Type 0 where
  pub schema_version : SchemaVersion
  pub ok : Bool
  pub valid : Bool
  pub target : TargetIdentity
  pub target_threads : ℕ
  pub requirements : CpuSamplingRequirements
  pub perf_event : CheckResult
  pub python_status : PythonSymbolizationStatus
  pub issues : List ValidationIssue
  pub warnings : List (Warning V)
