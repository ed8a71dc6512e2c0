-- ===== src/Core/Validate.antt =====
-- `run` of xprobe/core/src/validate.rs. Issues and warnings are their codes. `none` is a panic: an
-- `unreachable!` or an `expect`.
pub mod Linux
pub mod Checks
pub mod Run
pub mod Kinds
pub mod Panics
pub mod Requirements
pub mod Examples
use xprobe.Prelude.{
  ℕ, Bool, true, false, not, ◌&&◌, ◌||◌, if◌then◌else◌, Option, none, some, List, [], ◌∷◌, ◌++◌,
  is_empty, is_some_and, is_none_or, and_then,
}
use xprobe.Rust.Str.{Text, text, text_eq, starts_with}
use xprobe.Rust.Result.{Result, ok, err, ◌>>=◌, ◌>>◌, map_err, map_ok}
use xprobe.Protocol.Event.{SchemaVersion, EventType, HostProbeKind}
use xprobe.Protocol.Measurement.{MatchPolicy}
use xprobe.Protocol.Errors.{ErrorCode}
use xprobe.Protocol.Process.{ProcessReport}
use xprobe.Protocol.Validate.{
  ResolvedProbe, EndpointSource, ResolvedLinuxSelector, ResolvedCudaSelector, ValidatedEndpoint,
  AgentActivation, ValidationRequirements, ValidationResult,
}
use xprobe.Core.Inspect.Fields.{InspectError}
use xprobe.Core.Inspect.Fields
use xprobe.Core.Resolve.Probe.{ResolveError}
use xprobe.Core.Resolve.Probe
use xprobe.Core.Usdt.{UsdtError}
use xprobe.Core.Usdt
use xprobe.Core.CuptiCompat.{target_major}
use xprobe.Core.CuptiCompat
use xprobe.Core.Policy.{
  Endpoint, EndpointKind, needs_activity, needs_callback, is_host, uses_host_clock, needs_nvtx,
  check_policy, recommend_policy,
}
use xprobe.Core.Selectors.{InvalidSelector, parse_cuda_selector}
use xprobe.Core.Validate.Linux.{parse_linux_selector, python_event, python_selector}

pub data ValidateError (D : Type 0) : Type 0 where
  inspect : InspectError D → ValidateError D
  resolve : (endpoint : Text) (source : ResolveError D) → ValidateError D
  usdt : UsdtError → ValidateError D
  invalid_selector : ValidateError D
  invalid_correlation_policy : (policy : Text) → ValidateError D

module _ {D : Type 0} where
  unfoldable pub code : ValidateError D → ErrorCode
  unfolding Fields.code Probe.code Usdt.code
  code (ValidateError.inspect error) = Fields.code error
  code (ValidateError.resolve endpoint source) = Probe.code source
  code (ValidateError.usdt error) = Usdt.code error
  code ValidateError.invalid_selector = ErrorCode.invalid_event_selector
  code (ValidateError.invalid_correlation_policy policy) = ErrorCode.invalid_correlation_policy

  unfoldable pub recoverable : ValidateError D → Bool
  unfolding Fields.recoverable Probe.recoverable Usdt.recoverable
  recoverable (ValidateError.inspect error) = Fields.recoverable error
  recoverable (ValidateError.resolve endpoint source) = Probe.recoverable source
  recoverable (ValidateError.usdt error) = Usdt.recoverable error
  recoverable ValidateError.invalid_selector = true
  recoverable (ValidateError.invalid_correlation_policy policy) = true

-- What the validation asks of the target, each answer at its own moment: the two verifications, and
-- for the start and the end the resolution of a probe and the search for Python's probes.
pub record Target (D : Type 0) : Type 0 where
  pub verify_before : Result (Unit {0}) (InspectError D)
  pub verify_after : Result (Unit {0}) (InspectError D)
  pub resolve : (is_end : Bool) → (selector : Text) → Result ResolvedProbe (ResolveError D)
  pub find_python_gc_probes : (is_end : Bool) → Result (Option Text) UsdtError

abbrev host_endpoint :
    (selector : Text)
    → (event_type : EventType) → (collectable : Bool) → Option ResolvedProbe
    → Option ResolvedLinuxSelector
    → EndpointKind
    → Endpoint
host_endpoint selector event_type collectable host linux kind = record {
  public = record {
    selector = selector;
    source = EndpointSource.host;
    event_type = event_type;
    collectable = collectable;
    host = host;
    linux = linux;
    cuda = none;
  };
  kind = kind;
}

-- The endpoint of a resolved probe.
unfoldable pub probe_endpoint : (selector : Text) → ResolvedProbe → Option Endpoint
probe_endpoint selector host = elim host.probe_kind [
  | HostProbeKind.uprobe ↦ some (
      host_endpoint selector EventType.host_function_entry true (some host) none
        EndpointKind.host_entry)
  | HostProbeKind.uretprobe ↦ some (
      host_endpoint selector EventType.host_function_exit true (some host) none
        EndpointKind.host_return)
  | _ ↦ none
]

module _ {D : Type 0} where
  -- `.map_err(...)?` of a selector's text.
  abbrev refused : {A : Type 0} → Result A InvalidSelector → Result A (ValidateError D)
  refused (ok a) = ok a
  refused (err error) = err ValidateError.invalid_selector

  unfoldable pub linux_endpoint : (selector : Text) → Result Endpoint (ValidateError D)
  linux_endpoint selector = refused (parse_linux_selector selector) >>= λ parsed.
      ok (host_endpoint selector parsed.0.event_type true none (some parsed.0) parsed.1)

  unfoldable pub python_endpoint :
      Target D → (is_end : Bool) → (selector : Text) → Result Endpoint (ValidateError D)
  python_endpoint target is_end selector = do
    event ← refused (python_event selector)
    binary_path ← map_err ValidateError.usdt (target.find_python_gc_probes is_end)
    let parsed = python_selector event binary_path in
        ok (host_endpoint selector parsed.0.event_type parsed.2 none (some parsed.0) parsed.1)

abbrev pub endpoint_name : (is_end : Bool) → Text
endpoint_name true = text "end"
endpoint_name false = text "start"

module _ {D R : Type 0} (regex_new : Text → Option R) where
  unfoldable pub cuda_endpoint : (selector : Text) → Result Endpoint (ValidateError D)
  cuda_endpoint selector = refused (parse_cuda_selector regex_new selector) >>= λ parsed.
      ok (record {
        public = record {
          selector = selector;
          source = EndpointSource.cuda;
          event_type = parsed.0.event_type;
          collectable = parsed.2;
          host = none;
          linux = none;
          cuda = some parsed.0;
        };
        kind = parsed.1;
      })

  unfoldable pub resolve_endpoint :
      Target D → (is_end : Bool) → (selector : Text) → Option (Result Endpoint (ValidateError D))
  resolve_endpoint target is_end selector =
      if starts_with (text "uprobe:") selector
      then (elim (target.resolve is_end selector) [
        | err source ↦ some (err (ValidateError.resolve (endpoint_name is_end) source))
        | ok host ↦ and_then (probe_endpoint selector host) λ endpoint. some (ok endpoint)
      ])
      else if starts_with (text "syscall:") selector || starts_with (text "tracepoint:") selector
      then some (linux_endpoint selector)
      else if starts_with (text "python:") selector
      then some (python_endpoint target is_end selector)
      else some (cuda_endpoint selector)

module _ {D : Type 0} where
  unfoldable pub parse_match_policy : (policy : Text) → Result MatchPolicy (ValidateError D)
  unfolding text_eq
  parse_match_policy policy =
      if text_eq policy (text "exact")
      then ok MatchPolicy.exact
      else if text_eq policy (text "first-after") || text_eq policy (text "first_after")
      then ok MatchPolicy.first_after
      else if text_eq policy (text "nearest")
      then ok MatchPolicy.nearest
      else if text_eq policy (text "stack-nested") || text_eq policy (text "stack_nested")
      then ok MatchPolicy.stack_nested
      else if text_eq policy (text "stream-order") || text_eq policy (text "stream_order")
      then ok MatchPolicy.stream_order
      else err (ValidateError.invalid_correlation_policy policy)
