-- ===== src/Correlator/Errors.antt =====
-- `MeasureError` of xprobe/correlator/src/lib.rs. A message that the code builds is the reason that it
-- gives: one constructor for each place that raises the error. The words are not modelled.
use xprobe.Prelude.{ℕ, Bool, true}
use xprobe.Protocol.Event.{ClockDomain}
use xprobe.Protocol.Errors.{ErrorCode}

pub data SelectorReason : Type 0 where
  not_in_completed_captures unknown_event : SelectorReason
  host_boundary_missing host_boundary_invalid host_target_missing host_part_empty : SelectorReason
  host_offset_not_hex host_offset_syntax : SelectorReason
  api_shape api_boundary : SelectorReason
  syscall_shape syscall_name syscall_boundary : SelectorReason
  tracepoint_shape tracepoint_name : SelectorReason
  python_shape : SelectorReason
  kernel_filter kernel_regex_empty kernel_regex_invalid : SelectorReason
  memcpy_filter memcpy_kind : SelectorReason
  memset_filter : SelectorReason
  nvtx_filter_missing nvtx_filter nvtx_unbounded nvtx_regex_invalid : SelectorReason

pub data PolicyReason : Type 0 where
  exact_needs_key stack_needs_one_function stream_needs_gpu_activity : PolicyReason

pub data LimitReason : Type 0 where
  no_samples_or_duration zero_samples zero_duration zero_max_events : LimitReason
  empty_session_id duration_range window_overflow : LimitReason

pub data MeasureError : Type 0 where
  invalid_selector : SelectorReason → MeasureError
  invalid_policy : PolicyReason → MeasureError
  invalid_limit : LimitReason → MeasureError
  event_limit_exceeded : (actual maximum : ℕ) → MeasureError
  events_dropped : (count : ℕ) → MeasureError
  clock_domains_differ : (start end : ClockDomain) → MeasureError
  no_matched_samples : MeasureError

unfoldable pub code : MeasureError → ErrorCode
code (invalid_selector _) = ErrorCode.invalid_event_selector
code (invalid_policy _) = ErrorCode.invalid_correlation_policy
code (invalid_limit _) = ErrorCode.session_limit_exceeded
code (event_limit_exceeded _ _) = ErrorCode.event_rate_too_high
code (events_dropped _) = ErrorCode.events_dropped
code (clock_domains_differ _ _) = ErrorCode.clock_alignment_failed
code no_matched_samples = ErrorCode.no_matched_samples

unfoldable pub recoverable : MeasureError → Bool
recoverable _ = true
