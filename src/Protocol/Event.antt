-- ===== src/Protocol/Event.antt =====
-- xprobe/protocol/src/event.rs: captured events. A JSON value is `serde_json`'s: its type is the
-- parameter `V`.
use xprobe.Prelude.{ℕ, Bool, Option, List}
use xprobe.Rust.Str.{Text}
use xprobe.Rust.BTreeMap.{BTreeMap}

pub data SchemaVersion : Type 0 where
  v2 : SchemaVersion

pub data EventSource : Type 0 where
  ebpf cupti_callback cupti_activity marker : EventSource

pub data EventType : Type 0 where
  host_function_entry host_function_exit : EventType
  kernel_function_entry kernel_function_exit : EventType
  tracepoint : EventType
  syscall_entry syscall_exit : EventType
  cuda_api_entry cuda_api_exit : EventType
  gpu_kernel_start gpu_kernel_end : EventType
  gpu_memcpy_start gpu_memcpy_end : EventType
  gpu_memset_start gpu_memset_end : EventType
  nvtx_range_start nvtx_range_end : EventType
  python_gc_start python_gc_end : EventType
  marker : EventType

pub data ClockDomain : Type 0 where
  host_monotonic cupti cupti_normalized_to_host_monotonic : ClockDomain

pub data HostProbeKind : Type 0 where
  uprobe uretprobe kprobe kretprobe tracepoint syscall usdt : HostProbeKind

pub data NvtxRangeKind : Type 0 where
  thread process : NvtxRangeKind

pub data MemcpyKind : Type 0 where
  host_to_device device_to_host device_to_device host_to_host peer_to_peer unknown : MemcpyKind

unfoldable pub EventSource-discrete : Discrete EventSource
EventSource-discrete = hlevel

unfoldable pub EventType-discrete : Discrete EventType
EventType-discrete = hlevel

unfoldable pub ClockDomain-discrete : Discrete ClockDomain
ClockDomain-discrete = hlevel

unfoldable pub HostProbeKind-discrete : Discrete HostProbeKind
HostProbeKind-discrete = hlevel

unfoldable pub MemcpyKind-discrete : Discrete MemcpyKind
MemcpyKind-discrete = hlevel

pub record ArgumentValue (V : Type 0) : Type 0 where
  pub index : ℕ
  pub abi_type : Text
  pub value : Option V
  pub read_error : Option Text

-- `return_value` is the 64-bit pattern of the signed value.
pub record HostEvent (V : Type 0) : Type 0 where
  pub probe_kind : HostProbeKind
  pub binary_path : Option Text
  pub build_id : Option Text
  pub symbol : Option Text
  pub symbol_demangled : Option Text
  pub offset : Option ℕ
  pub return_value : Option ℕ
  pub arguments : List (ArgumentValue V)

pub record Dim3 : Type 0 where
  pub x : ℕ
  pub y : ℕ
  pub z : ℕ

pub record CudaEvent : Type 0 where
  pub device_id : Option ℕ
  pub context_id : Option ℕ
  pub stream_id : Option ℕ
  pub correlation_id : Option ℕ
  pub runtime_correlation_id : Option ℕ
  pub callback_domain : Option ℕ
  pub callback_id : Option ℕ
  pub kernel_name : Option Text
  pub kernel_name_mangled : Option Text
  pub start_ns : Option ℕ
  pub end_ns : Option ℕ
  pub grid : Option Dim3
  pub block : Option Dim3
  pub bytes : Option ℕ
  pub memcpy_kind : Option MemcpyKind

pub record NvtxEvent : Type 0 where
  pub name : Text
  pub name_complete : Bool
  pub range_kind : NvtxRangeKind
  pub range_id : ℕ
  pub start_tid : ℕ

pub record Event (V : Type 0) : Type 0 where
  pub schema_version : SchemaVersion
  pub session_id : Text
  pub event_id : Text
  pub sequence : ℕ
  pub source : EventSource
  pub event_type : EventType
  pub pid : ℕ
  pub tid : ℕ
  pub cpu : Option ℕ
  pub timestamp_raw : ℕ
  pub timestamp_ns : ℕ
  pub clock_domain : ClockDomain
  pub timestamp_error_ns : Option ℕ
  pub process_start_time : Option ℕ
  pub host : Option (HostEvent V)
  pub cuda : Option CudaEvent
  pub nvtx : Option NvtxEvent
  pub attributes : BTreeMap Text V
