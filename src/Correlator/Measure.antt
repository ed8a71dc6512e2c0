-- ===== src/Correlator/Measure.antt =====
-- `measure` of xprobe/correlator/src/lib.rs and what it calls itself. `none` is a panic.
pub mod Selected
pub mod Preparation
pub mod Promises
use xprobe.Prelude.{
  ℕ, zero, suc, ◌+◌, ◌-◌, ◌*◌, ◌/◌, ◌%◌, ◌^◌, ◌≤◌, ◌<◌, min, max, ◌≡◌, refl, sym, ap, ◌∙◌, subst,
  ◌≢◌, ◌↔◌, ◌⊎◌, inl, inr, Bool, true, false, not, ◌&&◌, ◌||◌, Option, none, some, List, [], ◌∷◌,
  ◌++◌, map, arith, ltb, leb, ◌==◌, if◌then◌else◌, ltb→lt, leb→le, Bool-cases, Option-cases,
  is_some, is_some_and, is_none_or, unwrap_or, decided, of_decided, and_then, length, get_elem?,
  take, drop, select, any, all, is_empty, count, length-append, count-append, length-take,
  List-cases, length-map, All, All-append, All-take, All-select, All-imp, All-of_forall, All-both,
  Ordered, All-get_elem?, All-select_test, get_elem?-some, length-select-le,
}
use xprobe.Correlator.Checks.{
  MeasureOptions, validate_options, same_domain, clock_group, first_timestamp, no_later,
  apply_duration_window, clock_loop, clock_of, common_clock_domain,
}
use xprobe.Rust.Words.{u64_mod, checked_add}
use xprobe.Rust.Result.{Result, ok, err, ◌>>=◌, ◌>>◌, ok_or, fail_if}
use xprobe.Rust.Str.{Text, text}
use xprobe.Protocol.Event.{
  Event, v2, EventSource, EventSource-discrete, ClockDomain, ClockDomain-discrete,
}
use xprobe.Protocol.Measurement.{
  LatencyStatistics, MatchPolicy, SessionStatus, CaptureCompleteness, Warning, MatchedEventPair,
  MeasurementResult,
}
use xprobe.Correlator.Errors.{
  MeasureError, invalid_limit, LimitReason, event_limit_exceeded, events_dropped,
  clock_domains_differ, no_matched_samples,
}
use xprobe.Correlator.Pairs.{Pair, Outcome, sort_events}
use xprobe.Correlator.Selector.{Selector, parse}
use xprobe.Correlator.Policy.{
  LifecycleKinds, matches, is_syscall_lifecycle, is_nvtx_lifecycle, is_python_gc_lifecycle,
  validate_policy, correlation_metadata,
}
use xprobe.Correlator.Statistics.{Float, statistics, ratio, maximum_timestamp_error}
use xprobe.Correlator.Lifecycle.{correlate_thread_lifecycle, correlate_nvtx_lifecycle}
use xprobe.Correlator.Exact.{correlate_exact}
use xprobe.Correlator.FirstAfter.{correlate_first_after}
use xprobe.Correlator.Nearest.{correlate_nearest}
use xprobe.Correlator.StackNested.{correlate_stack_nested}
use xprobe.Correlator.StreamOrder.{correlate_stream_order}

abbrev pub is_heuristic : MatchPolicy → Bool
is_heuristic MatchPolicy.first_after = true
is_heuristic MatchPolicy.nearest = true
is_heuristic _ = false

module _ {V : Type 0} where
  unfoldable collection_event_counts : List (Event V) → ℕ × ℕ
  unfolding EventSource-discrete
  collection_event_counts events =
      let host =
        count (λ event. decided (EventSource-discrete event.source EventSource.ebpf)) events in
      (host, length events - host)

  unfoldable pub correlate_selected :
      (starts ends : List (Event V))
      → MatchPolicy
      → (limit : Option ℕ) → LifecycleKinds
      → Option (Outcome V)
  unfolding correlate_thread_lifecycle correlate_nvtx_lifecycle correlate_exact
      correlate_first_after correlate_nearest correlate_stack_nested correlate_stream_order
  correlate_selected starts ends MatchPolicy.exact limit l =
      if l.syscall || l.python_gc
      then some (correlate_thread_lifecycle starts ends limit)
      else if l.nvtx
      then some (correlate_nvtx_lifecycle starts ends limit)
      else some (correlate_exact starts ends limit)
  correlate_selected starts ends MatchPolicy.first_after limit l =
      some (correlate_first_after starts ends limit)
  correlate_selected starts ends MatchPolicy.nearest limit l = correlate_nearest starts ends limit
  correlate_selected starts ends MatchPolicy.stack_nested limit l =
      some (correlate_stack_nested starts ends limit)
  correlate_selected starts ends MatchPolicy.stream_order limit l =
      some (correlate_stream_order starts ends limit)

  abbrev pub warning : Text → Text → Warning V
  warning code message = record { code = code; message = message; details = [] }

  -- A normalized CUPTI timestamp that reports no error bound.
  abbrev pub lacks_error : Event V → Bool
  lacks_error event =
      same_domain event.clock_domain ClockDomain.cupti_normalized_to_host_monotonic
      && not (is_some event.timestamp_error_ns)

  unfoldable measurement_warnings :
      MeasureOptions → (starts ends : List (Event V)) → List (Warning V)
  unfolding ClockDomain-discrete
  measurement_warnings options starts ends =
      (if is_heuristic options.match_policy
        then warning (text "HEURISTIC_CORRELATION")
            (text "temporal matching does not prove request-level causality")
          ∷ []
        else [])
      ++ (if any lacks_error (starts ++ ends)
          then warning (text "CLOCK_ERROR_UNAVAILABLE")
              (text "CUPTI does not report an error bound for GPU-to-host timestamp interpolation")
            ∷ []
          else [])

  abbrev pub evidence_of : Pair V → MatchedEventPair V
  evidence_of pair = record { start = pair.start; end = pair.end; latency_ns = pair.latency_ns }

abbrev pub alignment_name : ClockDomain → Text
alignment_name ClockDomain.host_monotonic = text "host_monotonic"
alignment_name ClockDomain.cupti = text "cupti_same_domain"
alignment_name ClockDomain.cupti_normalized_to_host_monotonic =
    text "cupti_normalized_to_host_monotonic"

-- What is known before the events are matched.
pub record Prepared (V : Type 0) : Type 0 where
  pub starts : List (Event V)
  pub ends : List (Event V)
  pub clock_domain : ClockDomain
  pub lifecycles : LifecycleKinds

module _ {V R : Type 0} (as_str : V → Option Text) (regex_new : Text → Option R)
    (is_match : R → Text → Bool) where
  -- The part of `measure` that selects, orders and checks the events.
  unfoldable pub prepare_selected :
      List (Event V) → MeasureOptions → Result (Prepared V) MeasureError
  unfolding parse validate_policy matches sort_events common_clock_domain apply_duration_window
      is_syscall_lifecycle is_nvtx_lifecycle is_python_gc_lifecycle
  prepare_selected events options = do
    start_selector ← parse regex_new options.start_selector
    end_selector ← parse regex_new options.end_selector
    validate_policy start_selector end_selector options.match_policy
    let all_starts = sort_events (select (matches as_str is_match start_selector) events)
    let all_ends = sort_events (select (matches as_str is_match end_selector) events)
    clock_domain ← common_clock_domain all_starts all_ends
    (starts, ends) ← apply_duration_window all_starts all_ends options.duration
    ok (record {
      starts = starts;
      ends = ends;
      clock_domain = clock_domain;
      lifecycles = record {
        syscall = is_syscall_lifecycle start_selector end_selector;
        nvtx = is_nvtx_lifecycle start_selector end_selector;
        python_gc = is_python_gc_lifecycle start_selector end_selector;
      };
    })

  -- The same after the tests of the options and the limits.
  unfoldable pub prepare : List (Event V) → MeasureOptions → Result (Prepared V) MeasureError
  unfolding validate_options prepare_selected
  prepare events options = do
    validate_options options
    fail_if (ltb options.max_events (length events))
        (event_limit_exceeded (length events) options.max_events)
    fail_if (not (options.dropped_events == 0)) (events_dropped options.dropped_events)
    prepare_selected events options

module _ {V : Type 0} (f : Float) where
  open f use {F}

  -- The result of a measurement with pairs.
  unfoldable pub result_of :
      List (Event V)
      → MeasureOptions
      → Prepared V
      → Outcome V
      → LatencyStatistics F
      → MeasurementResult V F
  unfolding ratio maximum_timestamp_error correlation_metadata measurement_warnings
      collection_event_counts
  result_of events options p outcome latency_ns =
      let matched = length outcome.pairs in
      let denominator =
        matched + outcome.unmatched_start + outcome.unmatched_end + outcome.ambiguous in
      let (method, confidence) = correlation_metadata options.match_policy p.lifecycles in
      let (host_events, cuda_events) = collection_event_counts events in
      record {
        schema_version = v2;
        ok = true;
        session_id = options.session_id;
        status = SessionStatus.completed;
        measurement = record {
          name = options.name;
          samples = record {
            matched = matched;
            unmatched_start = outcome.unmatched_start;
            unmatched_end = outcome.unmatched_end;
            ambiguous = outcome.ambiguous;
            dropped = options.dropped_events;
          };
          latency_ns = latency_ns;
        };
        correlation = record {
          method = method;
          confidence = confidence;
          score = ratio f matched denominator;
        };
        clock = record {
          alignment = alignment_name p.clock_domain;
          estimated_error_ns = maximum_timestamp_error outcome.pairs;
        };
        collection = record {
          completeness = CaptureCompleteness.complete;
          host_events = host_events;
          cuda_events = cuda_events;
          dropped_events = options.dropped_events;
          cupti = none;
        };
        evidence = map evidence_of outcome.pairs;
        warnings = measurement_warnings options p.starts p.ends;
      }

  unfoldable pub summarize :
      List (Event V) → MeasureOptions → Prepared V → Outcome V → Option (MeasurementResult V F)
  unfolding statistics result_of
  summarize events options p outcome =
      and_then (statistics f (map (λ pair. pair.latency_ns) outcome.pairs))
        λ latency_ns. some (result_of events options p outcome latency_ns)

  -- The part of `measure` after the events are known.
  unfoldable pub correlate :
      List (Event V)
      → MeasureOptions
      → Prepared V
      → Option (Result (MeasurementResult V F) MeasureError)
  unfolding correlate_selected summarize
  correlate events options p =
      and_then
        (correlate_selected p.starts p.ends options.match_policy options.samples p.lifecycles)
        λ outcome.
          if is_empty outcome.pairs
          then some (err no_matched_samples)
          else and_then (summarize events options p outcome) (λ result. some (ok result))

module _ {V R : Type 0} (as_str : V → Option Text) (regex_new : Text → Option R)
    (is_match : R → Text → Bool) (f : Float) where
  unfoldable pub measure :
      List (Event V) → MeasureOptions → Option (Result (MeasurementResult V (f.F)) MeasureError)
  unfolding prepare correlate
  measure events options = elim (prepare as_str regex_new is_match events options) [
    | err e ↦ some (err e)
    | ok p ↦ correlate f events options p
  ]
