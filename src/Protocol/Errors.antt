-- ===== src/Protocol/Errors.antt =====
-- xprobe/protocol/src/error.rs: the public error codes.
pub data ErrorCode : Type 0 where
  permission_denied target_not_found target_exited target_reused ambiguous_target : ErrorCode
  symbol_not_found binary_not_mapped invalid_event_selector invalid_correlation_policy : ErrorCode
  cupti_not_available cupti_agent_not_loaded cuda_context_not_found : ErrorCode
  unsupported_cuda_version event_rate_too_high session_limit_exceeded no_matched_samples : ErrorCode
  high_unmatched_rate events_dropped clock_alignment_failed trace_export_failed : ErrorCode
  cleanup_failed internal : ErrorCode
