-- ===== src/Exporter.antt =====
-- xprobe/exporter/src/lib.rs: the fields of a Chrome trace event, before they are written as JSON.
-- `as_str` stands for `serde_json::Value::as_str`.
pub mod Trace
pub mod Examples
use xprobe.Prelude.{
  ℕ, zero, suc, ◌+◌, ◌-◌, ◌*◌, ◌/◌, ◌%◌, ◌^◌, ◌≤◌, ◌<◌, min, max, ◌≡◌, refl, sym, ap, ◌∙◌, subst,
  ◌≢◌, ◌↔◌, ◌⊎◌, inl, inr, Bool, true, false, not, ◌&&◌, ◌||◌, Option, none, some, List, [], ◌∷◌,
  ◌++◌, map, arith, ltb, leb, ◌==◌, if◌then◌else◌, ltb→lt, leb→le, Bool-cases, Option-cases,
  is_some, is_some_and, is_none_or, unwrap_or, decided, of_decided, and_then, length, get_elem?,
  take, drop, select, any, all, is_empty, count, length-append, count-append, length-take,
  List-cases, length-map, All, All-append, All-take, All-select, All-imp, All-of_forall, All-both,
  Ordered, All-get_elem?, All-select_test, get_elem?-some, length-select-le,
}
use mathlib.Core.Option
use xprobe.Rust.Str.{Text, text}
use xprobe.Rust.Ord.{nat_ord, list_ord}
use xprobe.Rust.BTreeMap.{BTreeMap, get}
use xprobe.Protocol.Event.{Event, EventType, EventSource, ClockDomain, NvtxEvent}

unfoldable event_category : EventSource → Text
event_category EventSource.ebpf = text "host"
event_category EventSource.cupti_callback = text "cuda.api"
event_category EventSource.cupti_activity = text "cuda.activity"
event_category EventSource.marker = text "marker"

unfoldable pub event_type_name : EventType → Text
event_type_name EventType.host_function_entry = text "host_function_entry"
event_type_name EventType.host_function_exit = text "host_function_exit"
event_type_name EventType.kernel_function_entry = text "kernel_function_entry"
event_type_name EventType.kernel_function_exit = text "kernel_function_exit"
event_type_name EventType.tracepoint = text "tracepoint"
event_type_name EventType.syscall_entry = text "syscall_entry"
event_type_name EventType.syscall_exit = text "syscall_exit"
event_type_name EventType.cuda_api_entry = text "cuda_api_entry"
event_type_name EventType.cuda_api_exit = text "cuda_api_exit"
event_type_name EventType.gpu_kernel_start = text "gpu_kernel_start"
event_type_name EventType.gpu_kernel_end = text "gpu_kernel_end"
event_type_name EventType.gpu_memcpy_start = text "gpu_memcpy_start"
event_type_name EventType.gpu_memcpy_end = text "gpu_memcpy_end"
event_type_name EventType.gpu_memset_start = text "gpu_memset_start"
event_type_name EventType.gpu_memset_end = text "gpu_memset_end"
event_type_name EventType.nvtx_range_start = text "nvtx_range_start"
event_type_name EventType.nvtx_range_end = text "nvtx_range_end"
event_type_name EventType.python_gc_start = text "python_gc_start"
event_type_name EventType.python_gc_end = text "python_gc_end"
event_type_name EventType.marker = text "marker"

-- `Option::or_else`.
abbrev pub or_else : Option Text → Option Text → Option Text
or_else none other = other
or_else (some name) other = some name

module _ {V : Type 0} (as_str : V → Option Text) where
  unfoldable event_name : Event V → Text
  unfolding get event_type_name
  event_name event =
      unwrap_or
        (or_else (and_then event.host (λ host. host.symbol)) (
          or_else (and_then (get (text "cuda_api_name") event.attributes) as_str) (
            or_else (and_then event.cuda (λ cuda. cuda.kernel_name))
              (Option.map (λ nvtx. nvtx.name) event.nvtx))))
        (event_type_name event.event_type)

-- `args` of a trace event.
pub record TraceArgs (V : Type 0) : Type 0 where
  pub event_id : Text
  pub event_type : Text
  pub timestamp_ns : ℕ
  pub timestamp_raw : ℕ
  pub clock_domain : ClockDomain
  pub correlation_id : Option ℕ
  pub context_id : Option ℕ
  pub stream_id : Option ℕ
  pub nvtx : Option NvtxEvent
  pub attributes : BTreeMap Text V

pub record TraceEvent (V : Type 0) : Type 0 where
  pub name : Text
  pub cat : Text
  pub ph : Text
  pub s : Text
  pub ts : ℕ
  pub pid : ℕ
  pub tid : ℕ
  pub args : TraceArgs V

module _ {V : Type 0} (as_str : V → Option Text) where
  unfoldable pub chrome_event : Event V → TraceEvent V
  unfolding event_name event_category event_type_name
  chrome_event event = record {
    name = event_name as_str event;
    cat = event_category event.source;
    ph = text "i";
    s = text "t";
    ts = event.timestamp_ns / 1000;
    pid = event.pid;
    tid = unwrap_or (and_then event.cuda (λ cuda. cuda.stream_id)) event.tid;
    args = record {
      event_id = event.event_id;
      event_type = event_type_name event.event_type;
      timestamp_ns = event.timestamp_ns;
      timestamp_raw = event.timestamp_raw;
      clock_domain = event.clock_domain;
      correlation_id = and_then event.cuda (λ cuda. cuda.correlation_id);
      context_id = and_then event.cuda (λ cuda. cuda.context_id);
      stream_id = and_then event.cuda (λ cuda. cuda.stream_id);
      nvtx = event.nvtx;
      attributes = event.attributes;
    };
  }

  -- `events.iter().map(chrome_event)`.
  unfoldable pub trace_events : List (Event V) → List (TraceEvent V)
  unfolding chrome_event
  trace_events events = map chrome_event events
