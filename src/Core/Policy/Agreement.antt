-- ===== src/Core/Policy/Agreement.antt =====
-- The policies of xprobe/core/src/validate.rs against that of xprobe/correlator/src/lib.rs.
use xprobe.Prelude.{◌≡◌, refl, sym, ap, ◌∙◌, ◌≢◌, true, false, not, ◌||◌, arith, if◌then◌else◌}
use xprobe.Protocol.Event.{EventType, EventType-discrete}
use xprobe.Protocol.Measurement.{MatchPolicy}
use xprobe.Rust.Result.{ok}
use xprobe.Correlator.Selector.{
  Selector, host, syscall, tracepoint, python_gc, api, kernel, memcpy, memset, nvtx,
}
use xprobe.Correlator.Policy.{same_type, is_gpu_activity, validate_policy}
use xprobe.Correlator.Policy
use xprobe.Core.Policy.Recommendation.{accepts}
use xprobe.Core.Policy.{
  needs_activity, Endpoint, check_policy, EndpointKind, supports_exact, supports_stream_order,
}

module _ {R : Type 0} where
  -- The endpoint that the validation makes of the text of a selector.
  unfoldable pub endpoint_of : Selector R → EndpointKind
  unfolding EventType-discrete
  endpoint_of (host event_type _ _ _) =
      if same_type event_type EventType.host_function_entry
      then EndpointKind.host_entry
      else EndpointKind.host_return
  endpoint_of (syscall event_type name) =
      if same_type event_type EventType.syscall_entry
      then EndpointKind.syscall_entry name
      else EndpointKind.syscall_exit name
  endpoint_of (tracepoint category name) = EndpointKind.tracepoint
  endpoint_of (python_gc event_type _) =
      if same_type event_type EventType.python_gc_start
      then EndpointKind.python_gc_start
      else EndpointKind.python_gc_end
  endpoint_of (api event_type domain name) = EndpointKind.cuda_api domain name
  endpoint_of (kernel event_type name) = EndpointKind.kernel
  endpoint_of (memcpy event_type kind) = EndpointKind.memcpy
  endpoint_of (memset event_type) = EndpointKind.memset
  endpoint_of (nvtx event_type name pattern) = EndpointKind.nvtx_range pattern

  -- A Python or NVTX selector of the start, and one of the end, of its range.
  abbrev pub IsStart : Selector R → Type 0
  IsStart (nvtx event_type _ _) = event_type ≡ EventType.nvtx_range_start
  IsStart (python_gc event_type _) = event_type ≡ EventType.python_gc_start
  IsStart _ = Unit

  abbrev pub IsEnd : Selector R → Type 0
  IsEnd (nvtx event_type _ _) = event_type ≡ EventType.nvtx_range_end
  IsEnd (python_gc event_type _) = event_type ≡ EventType.python_gc_end
  IsEnd _ = Unit

  supports_exact-agrees :
      (start end : Selector R)
      → IsStart start
      → IsEnd end
      → supports_exact (endpoint_of start) (endpoint_of end) ≡ true
      → Policy.supports_exact start end ≡ true
  unfolding supports_exact endpoint_of Policy.supports_exact EventType-discrete
  supports_exact-agrees (host a b c d) end s e h = ground (arith, s, e, h)
  supports_exact-agrees (syscall a b) end s e h = ground (arith, s, e, h)
  supports_exact-agrees (tracepoint a b) end s e h = ground (arith, s, e, h)
  supports_exact-agrees (python_gc a b) end s e h = ground (arith, s, e, h)
  supports_exact-agrees (api a b c) end s e h = ground (arith, s, e, h)
  supports_exact-agrees (kernel a b) end s e h = ground (arith, s, e, h)
  supports_exact-agrees (memcpy a b) end s e h = ground (arith, s, e, h)
  supports_exact-agrees (memset a) end s e h = ground (arith, s, e, h)
  supports_exact-agrees (nvtx a b c) end s e h = ground (arith, s, e, h)

  needs_activity-endpoint_of : (s : Selector R) → needs_activity (endpoint_of s) ≡ is_gpu_activity s
  unfolding needs_activity endpoint_of is_gpu_activity EventType-discrete
  needs_activity-endpoint_of s = ground arith

  supports_stream_order-agrees :
      (start end : Selector R)
      → supports_stream_order (endpoint_of start) (endpoint_of end) ≡ true
      → (not (is_gpu_activity start) || not (is_gpu_activity end)) ≡ false
  unfolding supports_stream_order
  supports_stream_order-agrees start end h =
      ground (arith, h, needs_activity-endpoint_of start, needs_activity-endpoint_of end)

  -- A policy other than stack-nested that `check_policy` of the validation accepts for the
  -- endpoints of two selectors is one that `validate_policy` of the correlator accepts for these
  -- selectors, when an NVTX or Python selector given as start is the start of its range and one
  -- given as end is its end.
  pub validate_policy-agrees :
      (start end : Selector R) (from to : Endpoint) (policy : MatchPolicy)
      → from.kind ≡ endpoint_of start
      → to.kind ≡ endpoint_of end
      → IsStart start
      → IsEnd end
      → policy ≢ MatchPolicy.stack_nested
      → accepts (check_policy from to policy) ≡ true
      → validate_policy start end policy ≡ ok tt
  unfolding check_policy validate_policy
  validate_policy-agrees start end from to MatchPolicy.first_after a b s e n h = refl
  validate_policy-agrees start end from to MatchPolicy.nearest a b s e n h = refl
  validate_policy-agrees start end from to MatchPolicy.stack_nested a b s e n h = absurd (n refl)
  validate_policy-agrees start end from to MatchPolicy.exact a b s e n h =
      let accepted : supports_exact from.kind to.kind ≡ true = ground (arith, h) in
      rw
        (supports_exact-agrees start end s e (
          ap (λ x. supports_exact x (endpoint_of end)) (sym a)
          ∙ (ap (λ x. supports_exact from.kind x) (sym b) ∙ accepted)))
        refl
  validate_policy-agrees start end from to MatchPolicy.stream_order a b s e n h =
      let accepted : supports_stream_order from.kind to.kind ≡ true = ground (arith, h) in
      rw
        (supports_stream_order-agrees start end (
          ap (λ x. supports_stream_order x (endpoint_of end)) (sym a)
          ∙ (ap (λ x. supports_stream_order from.kind x) (sym b) ∙ accepted)))
        refl
