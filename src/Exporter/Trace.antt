-- ===== src/Exporter/Trace.antt =====
-- What a trace of xprobe/exporter/src/lib.rs keeps of the events.
use xprobe.Prelude.{
  ◌*◌, ◌+◌, ◌<◌, some-injective, ◌≤◌, ◌≡◌, refl, sym, ap, ◌∙◌, Option, none, some, List, [], ◌∷◌,
  arith, if◌then◌else◌, All, Ordered,
}
use xprobe.Rust.Str.{Text, text_eq}
use xprobe.Protocol.Event.{Event, EventType}
use xprobe.Exporter.{TraceEvent, event_type_name, chrome_event, trace_events}

abbrev pub every_type : List EventType
every_type =
    EventType.host_function_entry ∷ EventType.host_function_exit ∷ EventType.kernel_function_entry
    ∷ EventType.kernel_function_exit ∷ EventType.tracepoint ∷ EventType.syscall_entry
    ∷ EventType.syscall_exit ∷ EventType.cuda_api_entry ∷ EventType.cuda_api_exit
    ∷ EventType.gpu_kernel_start ∷ EventType.gpu_kernel_end ∷ EventType.gpu_memcpy_start
    ∷ EventType.gpu_memcpy_end ∷ EventType.gpu_memset_start ∷ EventType.gpu_memset_end
    ∷ EventType.nvtx_range_start ∷ EventType.nvtx_range_end ∷ EventType.python_gc_start
    ∷ EventType.python_gc_end ∷ EventType.marker ∷ []

-- The type of an event with a name.
abbrev typed : Text → List EventType → Option EventType
unfolding event_type_name text_eq
typed name [] = none
typed name (t ∷ types) = if text_eq (event_type_name t) name then some t else typed name types

typed-event_type_name : (t : EventType) → typed (event_type_name t) every_type ≡ some t
unfolding typed event_type_name text_eq
typed-event_type_name EventType.host_function_entry = refl
typed-event_type_name EventType.host_function_exit = refl
typed-event_type_name EventType.kernel_function_entry = refl
typed-event_type_name EventType.kernel_function_exit = refl
typed-event_type_name EventType.tracepoint = refl
typed-event_type_name EventType.syscall_entry = refl
typed-event_type_name EventType.syscall_exit = refl
typed-event_type_name EventType.cuda_api_entry = refl
typed-event_type_name EventType.cuda_api_exit = refl
typed-event_type_name EventType.gpu_kernel_start = refl
typed-event_type_name EventType.gpu_kernel_end = refl
typed-event_type_name EventType.gpu_memcpy_start = refl
typed-event_type_name EventType.gpu_memcpy_end = refl
typed-event_type_name EventType.gpu_memset_start = refl
typed-event_type_name EventType.gpu_memset_end = refl
typed-event_type_name EventType.nvtx_range_start = refl
typed-event_type_name EventType.nvtx_range_end = refl
typed-event_type_name EventType.python_gc_start = refl
typed-event_type_name EventType.python_gc_end = refl
typed-event_type_name EventType.marker = refl

-- `event_type_name` gives different names to different event types, so the type can be read back
-- from a trace.
pub event_type_name_injective : (a b : EventType) → event_type_name a ≡ event_type_name b → a ≡ b
event_type_name_injective a b h =
    some-injective
      (sym (typed-event_type_name a) ∙ (ap (λ n. typed n every_type) h ∙ typed-event_type_name b))

module _ {V : Type 0} where
  abbrev pub InOrder : TraceEvent V → TraceEvent V → Type 0
  InOrder a b = a.ts ≤ b.ts

-- The trace event of an event: in the microsecond that the event is in, which `args` keeps exactly.
pub record Renders {V : Type 0} (e : Event V) (x : TraceEvent V) : Type 0 where
  pub not_before : x.ts * 1000 ≤ e.timestamp_ns
  pub before_next : e.timestamp_ns < (x.ts + 1) * 1000
  pub exact : x.args.timestamp_ns ≡ e.timestamp_ns
  pub of_process : x.pid ≡ e.pid
  pub typed_as : x.args.event_type ≡ event_type_name e.event_type

-- One trace event for each event, at its place.
abbrev pub AllRender : {V : Type 0} → List (Event V) → List (TraceEvent V) → Type 0
AllRender [] [] = Unit
AllRender (e ∷ events) (x ∷ traces) = Renders e x × AllRender events traces
AllRender _ _ = ⊥

module _ {V : Type 0} (as_str : V → Option Text) where
  trace_All :
      (e : Event V) (events : List (Event V))
      → All (λ x. e.timestamp_ns ≤ x.timestamp_ns) events
      → All (InOrder (chrome_event as_str e)) (trace_events as_str events)
  unfolding chrome_event trace_events
  trace_All e [] h = tt
  trace_All e (x ∷ events) h = (omega (arith, h.0), trace_All e events h.1)

  trace_events-Ordered :
      (events : List (Event V))
      → Ordered (λ a b. a.timestamp_ns ≤ b.timestamp_ns) events
      → Ordered InOrder (trace_events as_str events)
  unfolding trace_events
  trace_events-Ordered [] h = tt
  trace_events-Ordered (e ∷ events) h = (trace_All e events h.0, trace_events-Ordered events h.1)

  trace_events-AllRender : (events : List (Event V)) → AllRender events (trace_events as_str events)
  unfolding chrome_event trace_events
  trace_events-AllRender [] = tt
  trace_events-AllRender (e ∷ events) = (
    record {
      not_before = omega arith;
      before_next = omega arith;
      exact = refl;
      of_process = refl;
      typed_as = refl;
    },
    trace_events-AllRender events,
  )

  -- For events in order of time, the trace has one event for each at its place, with the name of
  -- its type, its process and its exact time as argument, and with the whole microseconds of its
  -- time as timestamp; and the trace events are in order of these timestamps.
  pub trace_events-Renders :
      (events : List (Event V))
      → Ordered (λ a b. a.timestamp_ns ≤ b.timestamp_ns) events
      → AllRender events (trace_events as_str events) × Ordered InOrder (trace_events as_str events)
  trace_events-Renders events h = (trace_events-AllRender events, trace_events-Ordered events h)
