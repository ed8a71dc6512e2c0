-- ===== src/Protocol/Process.antt =====
-- xprobe/protocol/src/capability.rs and xprobe/protocol/src/process.rs: what `doctor` and `inspect`
-- report, and `ValidationIssue` of xprobe/protocol/src/validate.rs. `V` stands for a JSON value.
use xprobe.Prelude.{ℕ, Bool, Option, List}
use xprobe.Rust.Str.{Text}
use xprobe.Protocol.Event.{SchemaVersion}
use xprobe.Protocol.Errors.{ErrorCode}
use xprobe.Protocol.Measurement.{Warning}
use xprobe.Protocol.Validate.{TargetIdentity}

pub record Capabilities : Type 0 where
  pub uprobe : Bool
  pub uretprobe : Bool
  pub tracepoint : Bool
  pub cuda_callback : Bool
  pub cuda_activity : Bool
  pub runtime_injection : Bool

pub data CheckStatus : Type 0 where
  available restricted unavailable unknown : CheckStatus

unfoldable pub CheckStatus-discrete : Discrete CheckStatus
CheckStatus-discrete = hlevel

pub record CheckResult : Type 0 where
  pub status : CheckStatus
  pub detail : Option Text

pub record SystemChecks : Type 0 where
  pub btf : CheckResult
  pub ebpf_permissions : CheckResult
  pub kernel_lockdown : CheckResult
  pub perf_event_paranoid : CheckResult
  pub ptrace_scope : CheckResult
  pub nvidia_driver : CheckResult
  pub cuda_driver : CheckResult
  pub cuda_toolkit : CheckResult
  pub cupti : CheckResult

pub record Environment : Type 0 where
  pub operating_system : Text
  pub architecture : Text
  pub kernel_release : Text
  pub effective_uid : ℕ
  pub container : Option Text
  pub pid_namespace : Text

pub record CapabilityReport (V : Type 0) : Type 0 where
  pub schema_version : SchemaVersion
  pub ok : Bool
  pub capabilities : Capabilities
  pub environment : Environment
  pub checks : SystemChecks
  pub warnings : List (Warning V)

pub record ProcessCredentials : Type 0 where
  pub real_uid : ℕ
  pub effective_uid : ℕ
  pub saved_uid : ℕ
  pub filesystem_uid : ℕ
  pub real_gid : ℕ
  pub effective_gid : ℕ
  pub saved_gid : ℕ
  pub filesystem_gid : ℕ

pub record CgroupEntry : Type 0 where
  pub hierarchy_id : ℕ
  pub controllers : List Text
  pub path : Text

pub record ProcessCudaState : Type 0 where
  pub libcuda_loaded : Bool
  pub libcudart_loaded : Bool
  pub xprobe_cupti_loaded : Bool
  pub context : CheckResult

pub record ProcessReport : Type 0 where
  pub schema_version : SchemaVersion
  pub ok : Bool
  pub target : TargetIdentity
  pub executable : Text
  pub command_line : List Text
  pub credentials : ProcessCredentials
  pub namespace_pids : List ℕ
  pub mount_namespace : Text
  pub cgroups : List CgroupEntry
  pub loaded_libraries : List Text
  pub cuda : ProcessCudaState
  pub capabilities : Capabilities

pub record ValidationIssue : Type 0 where
  pub code : ErrorCode
  pub message : Text
