-- ===== src/Correlator/Policy.antt =====
-- Which events a selector matches, and which match policies two selectors support:
-- `Selector::matches`, `supports_exact`, the lifecycle tests, `validate_policy` and
-- `correlation_metadata` of xprobe/correlator/src/lib.rs. `is_match` stands for `Regex::is_match` and
-- `as_str` for `serde_json::Value::as_str`.
use xprobe.Prelude.{
  ℕ, Bool, true, false, not, ◌&&◌, ◌||◌, Option, ◌==◌, if◌then◌else◌, is_some_and, is_none_or,
  decided, and_then,
}
use xprobe.Rust.Ord.{nat_ord, list_ord}
use xprobe.Rust.Str.{Text, text, text_eq}
use xprobe.Rust.BTreeMap.{get}
use xprobe.Rust.Result.{Result, ok, err}
use xprobe.Protocol.Event.{
  Event, EventType, HostProbeKind, HostEvent, EventType-discrete, HostProbeKind-discrete,
  MemcpyKind-discrete,
}
use xprobe.Protocol.Measurement.{MatchPolicy, CorrelationConfidence}
use xprobe.Correlator.Errors.{
  MeasureError, invalid_policy, exact_needs_key, stack_needs_one_function,
  stream_needs_gpu_activity,
}
use xprobe.Correlator.Selector.{
  Selector, host, syscall, tracepoint, python_gc, api, kernel, memcpy, memset, nvtx, HostTarget,
  symbol, offset,
}

abbrev pub same_type : EventType → EventType → Bool
same_type a b = decided (EventType-discrete a b)

abbrev pub same_probe : HostProbeKind → HostProbeKind → Bool
same_probe a b = decided (HostProbeKind-discrete a b)

-- `value.as_deref() == Some(text)`.
abbrev pub is_text : Option Text → Text → Bool
is_text value t = is_some_and value (λ s. text_eq s t)

abbrev pub is_number : Option ℕ → ℕ → Bool
is_number value n = is_some_and value (λ m. m == n)

abbrev pub same_target : HostTarget → HostTarget → Bool
same_target (symbol a) (symbol b) = text_eq a b
same_target (offset a) (offset b) = a == b
same_target _ _ = false

unfoldable target_matches : {V : Type 0} → HostEvent V → HostTarget → Bool
target_matches h (symbol name) = is_text h.symbol name || is_text h.symbol_demangled name
target_matches h (offset n) = is_number h.offset n

module _ {V R : Type 0} (as_str : V → Option Text) (is_match : R → Text → Bool) where
  -- `attributes.get(key).and_then(Value::as_str) == Some(text)`.
  unfoldable has_attribute : Event V → Text → Text → Bool
  unfolding get text_eq
  has_attribute event key t = is_text (and_then (get key event.attributes) as_str) t

  unfoldable pub matches : Selector R → Event V → Bool
  unfolding has_attribute target_matches text_eq EventType-discrete HostProbeKind-discrete
      MemcpyKind-discrete
  matches (host event_type probe_kind binary_path target) event =
      same_type event.event_type event_type
      && is_some_and event.host λ h.
        same_probe h.probe_kind probe_kind
        && is_text h.binary_path binary_path
        && target_matches h target
  matches (api event_type domain name) event =
      same_type event.event_type event_type
      && has_attribute event (text "cuda_api_name") name
      && has_attribute event (text "cuda_api_domain") domain
  matches (kernel event_type name) event =
      same_type event.event_type event_type
      && is_none_or name
          λ pattern. is_some_and (and_then event.cuda (λ cuda. cuda.kernel_name)) (is_match pattern)
  matches (syscall event_type name) event =
      same_type event.event_type event_type
      && is_some_and event.host
          λ h. same_probe h.probe_kind HostProbeKind.syscall && is_text h.symbol name
  matches (tracepoint category name) event =
      same_type event.event_type EventType.tracepoint
      && is_some_and event.host
          (λ h. same_probe h.probe_kind HostProbeKind.tracepoint && is_text h.symbol name)
      && has_attribute event (text "tracepoint_category") category
  matches (python_gc event_type marker) event =
      same_type event.event_type event_type
      && is_some_and event.host
          (λ h. same_probe h.probe_kind HostProbeKind.usdt && is_text h.symbol marker)
      && has_attribute event (text "usdt_provider") (text "python")
  matches (memcpy event_type kind) event =
      same_type event.event_type event_type
      && is_none_or kind λ k.
        is_some_and (and_then event.cuda (λ cuda. cuda.memcpy_kind))
          (λ found. decided (MemcpyKind-discrete found k))
  matches (memset event_type) event = same_type event.event_type event_type
  matches (nvtx event_type name pattern) event =
      same_type event.event_type event_type && is_some_and event.nvtx (λ n. is_match name n.name)

module _ {R : Type 0} where
  unfoldable pub is_syscall_lifecycle : (start end : Selector R) → Bool
  unfolding text_eq EventType-discrete
  is_syscall_lifecycle (syscall s a) (syscall e b) =
      same_type s EventType.syscall_entry && same_type e EventType.syscall_exit && text_eq a b
  is_syscall_lifecycle _ _ = false

  unfoldable pub is_nvtx_lifecycle : (start end : Selector R) → Bool
  unfolding text_eq EventType-discrete
  is_nvtx_lifecycle (nvtx s _ a) (nvtx e _ b) =
      same_type s EventType.nvtx_range_start && same_type e EventType.nvtx_range_end && text_eq a b
  is_nvtx_lifecycle _ _ = false

  unfoldable pub is_python_gc_lifecycle : (start end : Selector R) → Bool
  unfolding EventType-discrete
  is_python_gc_lifecycle (python_gc s _) (python_gc e _) =
      same_type s EventType.python_gc_start && same_type e EventType.python_gc_end
  is_python_gc_lifecycle _ _ = false

  -- The endpoints that have no correlation key of their own.
  abbrev pub lacks_key : Selector R → Bool
  lacks_key (host _ _ _ _) = true
  lacks_key (tracepoint _ _) = true
  lacks_key (nvtx _ _ _) = true
  lacks_key (python_gc _ _) = true
  lacks_key _ = false

  unfoldable pub supports_exact : (start end : Selector R) → Bool
  unfolding text_eq EventType-discrete is_python_gc_lifecycle
  supports_exact (syscall s a) (syscall e b) =
      if same_type s EventType.syscall_entry && same_type e EventType.syscall_exit
      then text_eq a b
      else true
  supports_exact (nvtx s _ a) (nvtx e _ b) =
      same_type s EventType.nvtx_range_start && same_type e EventType.nvtx_range_end && text_eq a b
  supports_exact (python_gc s m) (python_gc e n) =
      is_python_gc_lifecycle (python_gc s m) (python_gc e n)
  supports_exact start end = not (lacks_key start || lacks_key end)

  unfoldable pub supports_stack_nested : (start end : Selector R) → Bool
  unfolding text_eq EventType-discrete
  supports_stack_nested (host s _ path target) (host e _ path' target') =
      same_type s EventType.host_function_entry
      && same_type e EventType.host_function_exit
      && text_eq path path'
      && same_target target target'
  supports_stack_nested _ _ = false

  unfoldable pub is_gpu_activity : Selector R → Bool
  is_gpu_activity (kernel _ _) = true
  is_gpu_activity (memcpy _ _) = true
  is_gpu_activity (memset _) = true
  is_gpu_activity _ = false

  unfoldable pub validate_policy :
      (start end : Selector R) → MatchPolicy → Result (Unit {0}) MeasureError
  unfolding supports_exact supports_stack_nested is_gpu_activity
  validate_policy start end MatchPolicy.exact =
      if not (supports_exact start end) then err (invalid_policy exact_needs_key) else ok tt
  validate_policy start end MatchPolicy.stack_nested =
      if not (supports_stack_nested start end)
      then err (invalid_policy stack_needs_one_function)
      else ok tt
  validate_policy start end MatchPolicy.stream_order =
      if not (is_gpu_activity start) || not (is_gpu_activity end)
      then err (invalid_policy stream_needs_gpu_activity)
      else ok tt
  validate_policy start end MatchPolicy.first_after = ok tt
  validate_policy start end MatchPolicy.nearest = ok tt

pub record LifecycleKinds : Type 0 where
  pub syscall : Bool
  pub nvtx : Bool
  pub python_gc : Bool

unfoldable pub correlation_metadata : MatchPolicy → LifecycleKinds → Text × CorrelationConfidence
correlation_metadata MatchPolicy.exact l =
    if l.syscall
    then (text "exact_syscall_tid_lifecycle", CorrelationConfidence.exact)
    else if l.nvtx
    then (text "exact_nvtx_range_id", CorrelationConfidence.exact)
    else if l.python_gc
    then (text "exact_python_gc_tid_lifecycle", CorrelationConfidence.exact)
    else (text "exact_cupti_correlation_id", CorrelationConfidence.exact)
correlation_metadata MatchPolicy.first_after l =
    (text "first_after", CorrelationConfidence.heuristic)
correlation_metadata MatchPolicy.nearest l = (text "nearest", CorrelationConfidence.heuristic)
correlation_metadata MatchPolicy.stack_nested l =
    (text "stack_nested_tid_lifo", CorrelationConfidence.high)
correlation_metadata MatchPolicy.stream_order l =
    (text "cuda_stream_order", CorrelationConfidence.high)
