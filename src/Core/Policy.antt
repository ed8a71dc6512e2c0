-- ===== src/Core/Policy.antt =====
-- The endpoints of xprobe/core/src/validate.rs and the policies that two endpoints support.
pub mod Recommendation
pub mod Agreement
pub mod Examples
use xprobe.Prelude.{
  ℕ, zero, suc, ◌+◌, ◌-◌, ◌*◌, ◌/◌, ◌%◌, ◌^◌, ◌≤◌, ◌<◌, min, max, ◌≡◌, refl, sym, ap, ◌∙◌, subst,
  ◌≢◌, ◌↔◌, ◌⊎◌, inl, inr, Bool, true, false, not, ◌&&◌, ◌||◌, Option, none, some, List, [], ◌∷◌,
  ◌++◌, map, arith, ltb, leb, ◌==◌, if◌then◌else◌, ltb→lt, leb→le, Bool-cases, Option-cases,
  is_some, is_some_and, is_none_or, unwrap_or, decided, of_decided, and_then, length, get_elem?,
  take, drop, select, any, all, is_empty, count, length-append, count-append, length-take,
  List-cases, length-map, All, All-append, All-take, All-select, All-imp, All-of_forall, All-both,
  Ordered, All-get_elem?, All-select_test, get_elem?-some, length-select-le,
}
use xprobe.Rust.Str.{Text, text, text_eq}
use xprobe.Protocol.Measurement.{MatchPolicy}
use xprobe.Protocol.Validate.{
  ResolvedProbe, ValidatedEndpoint, PolicyRecommendation, PolicyRecommendationReason,
}
use xprobe.Protocol.Errors.{ErrorCode}

pub data EndpointKind : Type 0 where
  host_entry host_return : EndpointKind
  syscall_entry syscall_exit : (name : Text) → EndpointKind
  tracepoint python_gc_start python_gc_end : EndpointKind
  cuda_api : (domain name : Text) → EndpointKind
  kernel memcpy memset : EndpointKind
  nvtx_range : (name_regex : Text) → EndpointKind

unfoldable pub needs_activity : EndpointKind → Bool
needs_activity EndpointKind.kernel = true
needs_activity EndpointKind.memcpy = true
needs_activity EndpointKind.memset = true
needs_activity _ = false

pub record Endpoint : Type 0 where
  pub public : ValidatedEndpoint
  pub kind : EndpointKind

-- The API call that launches a kernel.
abbrev pub launches : (domain name : Text) → Bool
launches domain name =
    text_eq domain (text "runtime_api") && text_eq name (text "cudaLaunchKernel")
    || text_eq domain (text "driver_api") && text_eq name (text "cuLaunchKernel")

unfoldable pub supports_exact : (start end : EndpointKind) → Bool
unfolding text_eq
supports_exact (EndpointKind.cuda_api d a) (EndpointKind.cuda_api e b) = text_eq d e && text_eq a b
supports_exact EndpointKind.kernel EndpointKind.kernel = true
supports_exact EndpointKind.memcpy EndpointKind.memcpy = true
supports_exact EndpointKind.memset EndpointKind.memset = true
supports_exact EndpointKind.python_gc_start EndpointKind.python_gc_end = true
supports_exact (EndpointKind.nvtx_range a) (EndpointKind.nvtx_range b) = text_eq a b
supports_exact (EndpointKind.syscall_entry a) (EndpointKind.syscall_exit b) = text_eq a b
supports_exact (EndpointKind.cuda_api domain name) EndpointKind.kernel = launches domain name
supports_exact EndpointKind.kernel (EndpointKind.cuda_api domain name) = launches domain name
supports_exact _ _ = false

abbrev pub is_host_call : (start end : EndpointKind) → Bool
is_host_call EndpointKind.host_entry EndpointKind.host_return = true
is_host_call _ _ = false

-- `none` is a panic: a host endpoint that is not resolved.
unfoldable pub supports_stack_nested : (start end : Endpoint) → Option Bool
unfolding text_eq
supports_stack_nested start end =
    if not (is_host_call start.kind end.kind)
    then some false
    else and_then start.public.host λ s.
      and_then end.public.host
        λ e. some (text_eq s.binary_path e.binary_path && s.file_offset == e.file_offset)

unfoldable pub supports_stream_order : (start end : EndpointKind) → Bool
unfolding needs_activity
supports_stream_order start end = needs_activity start && needs_activity end

abbrev pub push_if : Bool → MatchPolicy → List MatchPolicy
push_if supported policy = if supported then policy ∷ [] else []

abbrev pub is_policy : MatchPolicy → MatchPolicy → Bool
is_policy MatchPolicy.exact MatchPolicy.exact = true
is_policy MatchPolicy.first_after MatchPolicy.first_after = true
is_policy MatchPolicy.nearest MatchPolicy.nearest = true
is_policy MatchPolicy.stack_nested MatchPolicy.stack_nested = true
is_policy MatchPolicy.stream_order MatchPolicy.stream_order = true
is_policy _ _ = false

-- `compatible_policies.contains(&policy)`.
abbrev pub contains : List MatchPolicy → MatchPolicy → Bool
contains policies policy = any (is_policy policy) policies

abbrev pub strongest : List MatchPolicy → MatchPolicy × PolicyRecommendationReason
strongest policies =
    if contains policies MatchPolicy.stack_nested
    then (MatchPolicy.stack_nested, PolicyRecommendationReason.host_call_frame)
    else if contains policies MatchPolicy.exact
    then (MatchPolicy.exact, PolicyRecommendationReason.deterministic_correlation_key)
    else if contains policies MatchPolicy.stream_order
    then (MatchPolicy.stream_order, PolicyRecommendationReason.cuda_stream_order)
    else (MatchPolicy.first_after, PolicyRecommendationReason.temporal_order_only)

-- From the three tests.
unfoldable pub recommendation_of : (nested exact stream : Bool) → PolicyRecommendation
recommendation_of nested exact stream =
    let policies =
      push_if nested MatchPolicy.stack_nested
      ++ push_if exact MatchPolicy.exact
      ++ push_if stream MatchPolicy.stream_order
      ++ MatchPolicy.first_after ∷ MatchPolicy.nearest ∷ [] in
    let (policy, reason) = strongest policies in
    record { policy = policy; reason = reason; compatible_policies = policies }

unfoldable pub recommend_policy : (start end : Endpoint) → Option PolicyRecommendation
unfolding recommendation_of supports_exact supports_stack_nested supports_stream_order
recommend_policy start end = and_then (supports_stack_nested start end) λ nested. some (
    recommendation_of nested (supports_exact start.kind end.kind)
      (supports_stream_order start.kind end.kind))

-- The codes of the issues, and whether a warning of a heuristic is added.
unfoldable pub check_policy : (start end : Endpoint) → MatchPolicy → Option (List ErrorCode × Bool)
unfolding supports_exact supports_stack_nested supports_stream_order
check_policy start end MatchPolicy.exact = some (
  if supports_exact start.kind end.kind then [] else ErrorCode.invalid_correlation_policy ∷ [],
  false,
)
check_policy start end MatchPolicy.first_after = some ([], true)
check_policy start end MatchPolicy.nearest = some ([], true)
check_policy start end MatchPolicy.stack_nested =
    and_then (supports_stack_nested start end)
      λ nested. some (if nested then [] else ErrorCode.invalid_correlation_policy ∷ [], false)
check_policy start end MatchPolicy.stream_order = some (
  if supports_stream_order start.kind end.kind
      then []
      else ErrorCode.invalid_correlation_policy ∷ [],
  false,
)

-- The other tests on the kind of an endpoint.
unfoldable pub needs_callback : EndpointKind → Bool
needs_callback (EndpointKind.cuda_api domain name) = true
needs_callback (EndpointKind.nvtx_range name_regex) = true
needs_callback _ = false

unfoldable pub is_host : EndpointKind → Bool
is_host EndpointKind.host_entry = true
is_host EndpointKind.host_return = true
is_host (EndpointKind.syscall_entry name) = true
is_host (EndpointKind.syscall_exit name) = true
is_host EndpointKind.tracepoint = true
is_host EndpointKind.python_gc_start = true
is_host EndpointKind.python_gc_end = true
is_host _ = false

unfoldable pub uses_host_clock : EndpointKind → Bool
uses_host_clock EndpointKind.kernel = false
uses_host_clock EndpointKind.memcpy = false
uses_host_clock EndpointKind.memset = false
uses_host_clock _ = true

unfoldable pub needs_nvtx : EndpointKind → Bool
needs_nvtx (EndpointKind.nvtx_range name_regex) = true
needs_nvtx _ = false
