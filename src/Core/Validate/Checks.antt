-- ===== src/Core/Validate/Checks.antt =====
-- What a measurement requires and the checks of xprobe/core/src/validate.rs, by the codes of their
-- issues and warnings.
use xprobe.Prelude.{
  Bool, true, false, not, ◌&&◌, ◌||◌, if◌then◌else◌, List, [], ◌∷◌, ◌++◌, is_some_and, is_none_or,
}
use xprobe.Rust.Str.{Text, text, text_eq}
use xprobe.Rust.Result.{ok, err}
use xprobe.Protocol.Errors.{ErrorCode}
use xprobe.Protocol.Process.{ProcessReport}
use xprobe.Protocol.Validate.{AgentActivation, ValidationRequirements}
use xprobe.Core.CuptiCompat.{target_major}
use xprobe.Core.CuptiCompat
use xprobe.Core.Policy.{
  Endpoint, EndpointKind, needs_activity, needs_callback, is_host, uses_host_clock, needs_nvtx,
}

unfoldable pub activation_of : (needs_cupti loaded needs_nvtx : Bool) → AgentActivation
activation_of false loaded needs_nvtx = AgentActivation.not_required
activation_of true true needs_nvtx = AgentActivation.already_loaded
activation_of true false true = AgentActivation.startup_required
activation_of true false false = AgentActivation.injection_required

-- `agent_activation == AgentActivation::InjectionRequired`.
abbrev pub is_injection : AgentActivation → Bool
is_injection AgentActivation.injection_required = true
is_injection _ = false

-- `a != b` on booleans.
abbrev pub differ : Bool → Bool → Bool
differ true b = not b
differ false b = b

unfoldable pub requirements_of : ProcessReport → (start end : EndpointKind) → ValidationRequirements
unfolding is_host needs_callback needs_activity needs_nvtx uses_host_clock activation_of
requirements_of report start end =
    let callback = needs_callback start || needs_callback end in
    let activity = needs_activity start || needs_activity end in
    let nvtx = needs_nvtx start || needs_nvtx end in
    let activation = activation_of (callback || activity) report.cuda.xprobe_cupti_loaded nvtx in
    record {
      needs_ebpf = is_host start || is_host end;
      needs_cupti = callback || activity;
      needs_cupti_callback = callback;
      needs_cupti_activity = activity;
      needs_nvtx = nvtx;
      needs_clock_alignment = differ (uses_host_clock start) (uses_host_clock end);
      agent_activation = activation;
      target_mutation = is_injection activation;
    }

-- `if test { issues.push(...) }`
abbrev pub push_code : Bool → ErrorCode → List ErrorCode
push_code test code = if test then code ∷ [] else []

unfoldable pub check_collectability : Endpoint → List ErrorCode
check_collectability endpoint =
    push_code (not endpoint.public.collectable) ErrorCode.invalid_event_selector

abbrev is_entry : EndpointKind → Bool
is_entry EndpointKind.host_entry = true
is_entry _ = false

abbrev is_return : EndpointKind → Bool
is_return EndpointKind.host_return = true
is_return _ = false

abbrev is_python : EndpointKind → Bool
is_python EndpointKind.python_gc_start = true
is_python EndpointKind.python_gc_end = true
is_python _ = false

abbrev is_traced : EndpointKind → Bool
is_traced (EndpointKind.syscall_entry name) = true
is_traced (EndpointKind.syscall_exit name) = true
is_traced EndpointKind.tracepoint = true
is_traced _ = false

-- A probe that an endpoint needs is not available.
unfoldable pub lacks_probe : ProcessReport → (start end : EndpointKind) → Bool
lacks_probe report start end =
    (is_entry start || is_entry end || is_python start || is_python end)
      && not report.capabilities.uprobe
    || (is_return start || is_return end) && not report.capabilities.uretprobe
    || (is_traced start || is_traced end) && not report.capabilities.tracepoint

-- `matches!(agent_activation, NotRequired | AlreadyLoaded)`.
abbrev pub is_ready : AgentActivation → Bool
is_ready AgentActivation.not_required = true
is_ready AgentActivation.already_loaded = true
is_ready _ = false

abbrev pub is_startup : AgentActivation → Bool
is_startup AgentActivation.startup_required = true
is_startup _ = false

unfoldable pub check_capabilities :
    ProcessReport → (start end : EndpointKind) → ValidationRequirements → List ErrorCode × List Text
unfolding lacks_probe
check_capabilities report start end requirements =
    let ready = is_ready requirements.agent_activation in
    (
      push_code (requirements.needs_ebpf && lacks_probe report start end)
            ErrorCode.permission_denied
          ++ push_code (is_startup requirements.agent_activation) ErrorCode.cupti_agent_not_loaded
          ++ push_code
              (ready && requirements.needs_cupti_callback && not report.capabilities.cuda_callback)
              ErrorCode.cupti_not_available
          ++ push_code
              (ready && requirements.needs_cupti_activity && not report.capabilities.cuda_activity)
              ErrorCode.cupti_not_available,
      if is_injection requirements.agent_activation
          then text "TARGET_PROCESS_WILL_BE_MODIFIED" ∷ []
          else [],
    )

unfoldable pub check_cupti_compatibility : ProcessReport → ValidationRequirements → List ErrorCode
unfolding target_major CuptiCompat.code
check_cupti_compatibility report requirements =
    if not requirements.needs_cupti
    then []
    else elim (target_major report) [ ok major ↦ [] | err error ↦ CuptiCompat.code error ∷ [] ]

abbrev is_kernel : EndpointKind → Bool
is_kernel EndpointKind.kernel = true
is_kernel _ = false

unfoldable pub check_selector_breadth : Endpoint → List Text
unfolding text_eq
check_selector_breadth endpoint =
    let broad =
      is_kernel endpoint.kind
      && is_some_and endpoint.public.cuda λ cuda.
        is_none_or cuda.kernel_name_regex
          λ pattern. text_eq pattern (text ".*") || text_eq pattern (text "^.*$") in
    if broad then text "BROAD_EVENT_SELECTOR" ∷ [] else []
