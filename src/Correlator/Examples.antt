-- ===== src/Correlator/Examples.antt =====
-- Events to try the code on: CUDA kernel starts and ends of one process.
pub mod Matching
pub mod Measuring
use xprobe.Prelude.{
  ℕ, zero, suc, ◌+◌, ◌-◌, ◌*◌, ◌/◌, ◌%◌, ◌^◌, ◌≤◌, ◌<◌, min, max, ◌≡◌, refl, sym, ap, ◌∙◌, subst,
  ◌≢◌, ◌↔◌, ◌⊎◌, inl, inr, Bool, true, false, not, ◌&&◌, ◌||◌, Option, none, some, List, [], ◌∷◌,
  ◌++◌, map, arith, ltb, leb, ◌==◌, if◌then◌else◌, ltb→lt, leb→le, Bool-cases, Option-cases,
  is_some, is_some_and, is_none_or, unwrap_or, decided, of_decided, and_then, length, get_elem?,
  take, drop, select, any, all, is_empty, count, length-append, count-append, length-take,
  List-cases, length-map, All, All-append, All-take, All-select, All-imp, All-of_forall, All-both,
  Ordered, All-get_elem?, All-select_test, get_elem?-some, length-select-le,
}
use xprobe.Rust.Str.{Text, text}
use xprobe.Protocol.Event.{Event, v2, EventSource, EventType, ClockDomain, CudaEvent}

-- A JSON value of the examples is its text.
abbrev pub Value : Type 0
Value = Text

-- A kernel of context 1 and stream 7.
abbrev pub kernel_payload : ℕ → CudaEvent
kernel_payload correlation_id = record {
  device_id = some 0;
  context_id = some 1;
  stream_id = some 7;
  correlation_id = some correlation_id;
  runtime_correlation_id = none;
  callback_domain = none;
  callback_id = none;
  kernel_name = some (text "add");
  kernel_name_mangled = none;
  start_ns = none;
  end_ns = none;
  grid = none;
  block = none;
  bytes = none;
  memcpy_kind = none;
}

abbrev pub kernel_event : EventType → ℕ → ℕ → Event Value
kernel_event event_type timestamp correlation_id = record {
  schema_version = v2;
  session_id = text "s";
  event_id = text "e";
  sequence = timestamp;
  source = EventSource.cupti_activity;
  event_type = event_type;
  pid = 42;
  tid = 43;
  cpu = none;
  timestamp_raw = timestamp;
  timestamp_ns = timestamp;
  clock_domain = ClockDomain.cupti;
  timestamp_error_ns = none;
  process_start_time = none;
  host = none;
  cuda = some (kernel_payload correlation_id);
  nvtx = none;
  attributes = [];
}

abbrev pub start_at : ℕ → ℕ → Event Value
start_at = kernel_event EventType.gpu_kernel_start

abbrev pub end_at : ℕ → ℕ → Event Value
end_at = kernel_event EventType.gpu_kernel_end

abbrev pub two_starts : List (Event Value)
two_starts = start_at 10 1 ∷ start_at 30 2 ∷ []

abbrev pub two_ends : List (Event Value)
two_ends = end_at 25 1 ∷ end_at 45 2 ∷ []
