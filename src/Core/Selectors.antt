-- ===== src/Core/Selectors.antt =====
-- The parsers of CUDA selectors of xprobe/core/src/validate.rs. Of `ValidateError` only
-- `InvalidSelector` occurs, whose message is left out. `regex_new` stands for `Regex::new`.
pub mod Agreement
pub mod Examples
use xprobe.Prelude.{
  ℕ, zero, suc, ◌+◌, ◌-◌, ◌*◌, ◌/◌, ◌%◌, ◌^◌, ◌≤◌, ◌<◌, min, max, ◌≡◌, refl, sym, ap, ◌∙◌, subst,
  ◌≢◌, ◌↔◌, ◌⊎◌, inl, inr, Bool, true, false, not, ◌&&◌, ◌||◌, Option, none, some, List, [], ◌∷◌,
  ◌++◌, map, arith, ltb, leb, ◌==◌, if◌then◌else◌, ltb→lt, leb→le, Bool-cases, Option-cases,
  is_some, is_some_and, is_none_or, unwrap_or, decided, of_decided, and_then, length, get_elem?,
  take, drop, select, any, all, is_empty, count, length-append, count-append, length-take,
  List-cases, length-map, All, All-append, All-take, All-select, All-imp, All-of_forall, All-both,
  Ordered, All-get_elem?, All-select_test, get_elem?-some, length-select-le,
}
use xprobe.Rust.Str.{Text, text, text_eq, strip_prefix, split, splitn}
use xprobe.Rust.Result.{Result, ok, err, ◌>>=◌, ◌>>◌, ok_or, fail_if}
use xprobe.Protocol.Event.{EventType, MemcpyKind}
use xprobe.Protocol.Validate.{ResolvedCudaSelector}
use xprobe.Correlator.Regex.{is_bounded_name_regex}
use xprobe.Correlator.Selector.{memcpy_kind_of}
use xprobe.Core.Policy.{EndpointKind}

pub data InvalidSelector : Type 0 where
  invalid_selector : InvalidSelector

-- A resolved selector, its endpoint, and whether it can be collected.
abbrev pub Parsed : Type 0
Parsed = Result (ResolvedCudaSelector × EndpointKind × Bool) InvalidSelector

abbrev pub resolved : EventType → ResolvedCudaSelector
resolved event_type = record {
  event_type = event_type;
  api_domain = none;
  api_name = none;
  kernel_name_regex = none;
  nvtx_name_regex = none;
  memcpy_kind = none;
}

unfoldable pub parse_memcpy_selector : EventType → Option Text → Parsed
unfolding strip_prefix memcpy_kind_of
parse_memcpy_selector event_type none = ok (resolved event_type, EndpointKind.memcpy, true)
parse_memcpy_selector event_type (some filter) = do
  kind ← ok_or (strip_prefix (text "kind=") filter) invalid_selector
  known ← ok_or (memcpy_kind_of kind) invalid_selector
  ok (record (resolved event_type) { memcpy_kind = some known }, EndpointKind.memcpy, true)

unfoldable pub parse_memset_selector : EventType → Option Text → Parsed
parse_memset_selector event_type none = ok (resolved event_type, EndpointKind.memset, true)
parse_memset_selector event_type (some filter) = err invalid_selector

-- `matches!(domain.as_str(), "runtime_api" | "driver_api")`.
abbrev pub is_collected : Text → Bool
is_collected domain = text_eq domain (text "runtime_api") || text_eq domain (text "driver_api")

abbrev pub api_fields : List Text → Parsed
api_fields (cuda ∷ domain ∷ name ∷ boundary ∷ []) =
    if is_empty name then err invalid_selector else do
      event_type ←
          if text_eq boundary (text "entry")
          then ok EventType.cuda_api_entry
          else if text_eq boundary (text "exit")
          then ok EventType.cuda_api_exit
          else err invalid_selector
      ok (
        record (resolved event_type) { api_domain = some domain; api_name = some name },
        EndpointKind.cuda_api domain name,
        is_collected domain,
      )
api_fields _ = err invalid_selector

unfoldable pub parse_api_selector : Text → Parsed
unfolding split text_eq
parse_api_selector selector = api_fields (split b':' selector)

module _ {R : Type 0} (regex_new : Text → Option R) where
  unfoldable pub parse_kernel_selector : EventType → Option Text → Parsed
  unfolding strip_prefix
  parse_kernel_selector event_type none = ok (resolved event_type, EndpointKind.kernel, true)
  parse_kernel_selector event_type (some filter) = do
    pattern ← ok_or (strip_prefix (text "name~") filter) invalid_selector
    fail_if (is_empty pattern) invalid_selector
    name ← ok_or (regex_new pattern) invalid_selector
    ok (
      record (resolved event_type) { kernel_name_regex = some pattern },
      EndpointKind.kernel,
      true,
    )

  unfoldable pub parse_nvtx_selector : EventType → Option Text → Parsed
  unfolding strip_prefix is_bounded_name_regex
  parse_nvtx_selector event_type none = err invalid_selector
  parse_nvtx_selector event_type (some filter) = do
    pattern ← ok_or (strip_prefix (text "name~") filter) invalid_selector
    name ← ok_or (regex_new pattern) invalid_selector
    fail_if (not (is_bounded_name_regex pattern)) invalid_selector
    ok (
      record (resolved event_type) { nvtx_name_regex = some pattern },
      EndpointKind.nvtx_range pattern,
      true,
    )

  unfoldable pub parse_cuda_event : Text → Text → Option Text → Parsed
  unfolding text_eq parse_api_selector parse_kernel_selector parse_memcpy_selector
      parse_memset_selector parse_nvtx_selector
  parse_cuda_event selector event filter =
      if text_eq event (text "runtime_api") || text_eq event (text "driver_api")
      then parse_api_selector selector
      else if text_eq event (text "kernel_start")
      then parse_kernel_selector EventType.gpu_kernel_start filter
      else if text_eq event (text "kernel_end")
      then parse_kernel_selector EventType.gpu_kernel_end filter
      else if text_eq event (text "memcpy_start")
      then parse_memcpy_selector EventType.gpu_memcpy_start filter
      else if text_eq event (text "memcpy_end")
      then parse_memcpy_selector EventType.gpu_memcpy_end filter
      else if text_eq event (text "memset_start")
      then parse_memset_selector EventType.gpu_memset_start filter
      else if text_eq event (text "memset_end")
      then parse_memset_selector EventType.gpu_memset_end filter
      else if text_eq event (text "nvtx_range_start")
      then parse_nvtx_selector EventType.nvtx_range_start filter
      else if text_eq event (text "nvtx_range_end")
      then parse_nvtx_selector EventType.nvtx_range_end filter
      else err invalid_selector

  abbrev pub selector_fields : Text → List Text → Parsed
  selector_fields selector (first ∷ event ∷ rest) =
      if text_eq first (text "cuda")
      then parse_cuda_event selector event (get_elem? rest 0)
      else err invalid_selector
  selector_fields selector _ = err invalid_selector

  unfoldable pub parse_cuda_selector : Text → Parsed
  unfolding splitn text_eq parse_cuda_event
  parse_cuda_selector selector = selector_fields selector (splitn 3 b':' selector)
