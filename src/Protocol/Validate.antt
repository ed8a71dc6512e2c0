-- ===== src/Protocol/Validate.antt =====
-- xprobe/protocol/src/resolve.rs and xprobe/protocol/src/validate.rs: resolved probes, validated
-- endpoints and recommended policies, and `TargetIdentity` of xprobe/protocol/src/measurement.rs.
use xprobe.Prelude.{ℕ, Bool, Option, List}
use xprobe.Rust.Str.{Text}
use xprobe.Protocol.Event.{SchemaVersion, EventType, HostProbeKind, MemcpyKind}
use xprobe.Protocol.Measurement.{MatchPolicy}
use xprobe.Protocol.Errors.{ErrorCode}

pub record TargetIdentity : Type 0 where
  pub pid : ℕ
  pub process_start_time : ℕ

pub data ElfObjectKind : Type 0 where
  executable position_independent_executable shared_library : ElfObjectKind

pub record ProcessMapping : Type 0 where
  pub start_address : ℕ
  pub end_address : ℕ
  pub file_offset : ℕ

pub record ResolvedProbe : Type 0 where
  pub schema_version : SchemaVersion
  pub ok : Bool
  pub target : TargetIdentity
  pub selector : Text
  pub binary_path : Text
  pub build_id : Option Text
  pub object_kind : ElfObjectKind
  pub probe_kind : HostProbeKind
  pub symbol : Option Text
  pub symbol_demangled : Option Text
  pub symbol_virtual_address : Option ℕ
  pub symbol_size : Option ℕ
  pub file_offset : ℕ
  pub runtime_address : ℕ
  pub mapping : ProcessMapping

pub data EndpointSource : Type 0 where
  host cuda : EndpointSource

pub record ResolvedCudaSelector : Type 0 where
  pub event_type : EventType
  pub api_domain : Option Text
  pub api_name : Option Text
  pub kernel_name_regex : Option Text
  pub nvtx_name_regex : Option Text
  pub memcpy_kind : Option MemcpyKind

pub record ResolvedLinuxSelector : Type 0 where
  pub event_type : EventType
  pub probe_kind : HostProbeKind
  pub category : Text
  pub name : Text
  pub syscall_number : Option ℕ
  pub binary_path : Option Text
  pub provider : Option Text

pub record ValidatedEndpoint : Type 0 where
  pub selector : Text
  pub source : EndpointSource
  pub event_type : EventType
  pub collectable : Bool
  pub host : Option ResolvedProbe
  pub linux : Option ResolvedLinuxSelector
  pub cuda : Option ResolvedCudaSelector

pub data PolicyRecommendationReason : Type 0 where
  deterministic_correlation_key host_call_frame : PolicyRecommendationReason
  cuda_stream_order temporal_order_only : PolicyRecommendationReason

pub record PolicyRecommendation : Type 0 where
  pub policy : MatchPolicy
  pub reason : PolicyRecommendationReason
  pub compatible_policies : List MatchPolicy

pub data AgentActivation : Type 0 where
  not_required already_loaded injection_required startup_required : AgentActivation

pub record ValidationRequirements : Type 0 where
  pub needs_ebpf : Bool
  pub needs_cupti : Bool
  pub needs_cupti_callback : Bool
  pub needs_cupti_activity : Bool
  pub needs_nvtx : Bool
  pub needs_clock_alignment : Bool
  pub agent_activation : AgentActivation
  pub target_mutation : Bool

-- Issues and warnings by their codes: the messages are left out.
pub record ValidationResult : Type 0 where
  pub schema_version : SchemaVersion
  pub ok : Bool
  pub valid : Bool
  pub target : TargetIdentity
  pub start : ValidatedEndpoint
  pub end : ValidatedEndpoint
  pub match_policy : MatchPolicy
  pub policy_recommendation : PolicyRecommendation
  pub requirements : ValidationRequirements
  pub issues : List ErrorCode
  pub warnings : List Text
