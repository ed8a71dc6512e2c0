-- ===== src/Core/Validate/Requirements.antt =====
-- What a valid result of xprobe/core/src/validate.rs grants to a measurement.
use xprobe.Prelude.{
  ◌||◌, ◌⊎◌, ◌≡◌, ◌≢◌, refl, sym, ap, ◌∙◌, subst, Bool, true, false, not, ◌&&◌, some, List, [], ◌∷◌,
  ◌++◌, arith, and_then-some, is_empty, some-injective,
}
use xprobe.Protocol.Errors.{ErrorCode}
use xprobe.Protocol.Measurement.{MatchPolicy}
use xprobe.Protocol.Process.{Capabilities, ProcessReport}
use xprobe.Protocol.Validate.{AgentActivation, ValidationRequirements, ValidationResult}
use xprobe.Core.Policy.{
  needs_activity, EndpointKind, is_host, needs_callback, Endpoint, check_policy, recommend_policy,
}
use xprobe.Core.Policy.Recommendation.{accepts}
use xprobe.Core.Validate.Checks.{
  is_startup, push_code, requirements_of, lacks_probe, is_ready, check_collectability,
  check_capabilities, check_cupti_compatibility, activation_of, is_injection,
}
use xprobe.Core.Validate.Run.{issues_of, validation_of}

-- The probes that an endpoint is collected by are available.
abbrev pub Probed : Capabilities → EndpointKind → Type 0
Probed has EndpointKind.host_entry = has.uprobe ≡ true
Probed has EndpointKind.host_return = has.uretprobe ≡ true
Probed has EndpointKind.python_gc_start = has.uprobe ≡ true
Probed has EndpointKind.python_gc_end = has.uprobe ≡ true
Probed has (EndpointKind.syscall_entry name) = has.tracepoint ≡ true
Probed has (EndpointKind.syscall_exit name) = has.tracepoint ≡ true
Probed has EndpointKind.tracepoint = has.tracepoint ≡ true
Probed has _ = Unit

-- What CUPTI reports of an endpoint is available, or an agent that reports it will be injected.
abbrev pub Reported : Capabilities → (injected : Bool) → EndpointKind → Type 0
Reported has injected (EndpointKind.cuda_api domain name) =
    (has.cuda_callback ≡ true) ⊎ (injected ≡ true)
Reported has injected (EndpointKind.nvtx_range name_regex) =
    (has.cuda_callback ≡ true) ⊎ (injected ≡ true)
Reported has injected EndpointKind.kernel = (has.cuda_activity ≡ true) ⊎ (injected ≡ true)
Reported has injected EndpointKind.memcpy = (has.cuda_activity ≡ true) ⊎ (injected ≡ true)
Reported has injected EndpointKind.memset = (has.cuda_activity ≡ true) ⊎ (injected ≡ true)
Reported has injected _ = Unit

-- A measurement that is valid can be collected: its endpoints, the probes and the agent it needs.
pub record Grants (report : ProcessReport) (start end : Endpoint) (policy : MatchPolicy)
    (result : ValidationResult) : Type 0 where
  pub collectable : (start.public.collectable ≡ true) × (end.public.collectable ≡ true)
  pub probes : Probed report.capabilities start.kind × Probed report.capabilities end.kind
  pub no_restart : result.requirements.agent_activation ≢ AgentActivation.startup_required
  pub reports :
      Reported report.capabilities result.requirements.target_mutation start.kind
      × Reported report.capabilities result.requirements.target_mutation end.kind
  pub accepted : accepts (check_policy start end policy) ≡ true

empty-append :
    (xs ys : List ErrorCode)
    → is_empty (xs ++ ys) ≡ true
    → (is_empty xs ≡ true) × (is_empty ys ≡ true)
empty-append [] ys h = (refl, h)
empty-append (x ∷ xs) ys h = cc

push_code-empty :
    (test : Bool) (code : ErrorCode) → is_empty (push_code test code) ≡ true → test ≡ false
push_code-empty true code h = cc
push_code-empty false code h = refl

-- The agent is there, will be injected, or the target has to be restarted.
agent_granted :
    (needed loaded nvtx wanted available : Bool)
    → (is_ready (activation_of needed loaded nvtx) && wanted && not available) ≡ false
    → activation_of needed loaded nvtx ≢ AgentActivation.startup_required
    → wanted ≡ true
    → (available ≡ true) ⊎ (is_injection (activation_of needed loaded nvtx) ≡ true)
unfolding activation_of
agent_granted needed loaded nvtx wanted available h k w = ground arith

no_startup :
    (activation : AgentActivation)
    → is_startup activation ≡ false
    → activation ≢ AgentActivation.startup_required
no_startup AgentActivation.startup_required h e = cc
no_startup AgentActivation.not_required h e = cc
no_startup AgentActivation.already_loaded h e = cc
no_startup AgentActivation.injection_required h e = cc

-- From the test of the probes, for the start and for the end.
start-Probed :
    (report : ProcessReport) (start end : EndpointKind)
    → ((is_host start || is_host end) && lacks_probe report start end) ≡ false
    → Probed report.capabilities start
unfolding is_host lacks_probe
start-Probed report EndpointKind.host_entry end h = ground (arith, h)
start-Probed report EndpointKind.host_return end h = ground (arith, h)
start-Probed report (EndpointKind.syscall_entry name) end h = ground (arith, h)
start-Probed report (EndpointKind.syscall_exit name) end h = ground (arith, h)
start-Probed report EndpointKind.tracepoint end h = ground (arith, h)
start-Probed report EndpointKind.python_gc_start end h = ground (arith, h)
start-Probed report EndpointKind.python_gc_end end h = ground (arith, h)
start-Probed report (EndpointKind.cuda_api domain name) end h = ground (arith, h)
start-Probed report EndpointKind.kernel end h = ground (arith, h)
start-Probed report EndpointKind.memcpy end h = ground (arith, h)
start-Probed report EndpointKind.memset end h = ground (arith, h)
start-Probed report (EndpointKind.nvtx_range name_regex) end h = ground (arith, h)

end-Probed :
    (report : ProcessReport) (start end : EndpointKind)
    → ((is_host start || is_host end) && lacks_probe report start end) ≡ false
    → Probed report.capabilities end
unfolding is_host lacks_probe
end-Probed report start EndpointKind.host_entry h = ground (arith, h)
end-Probed report start EndpointKind.host_return h = ground (arith, h)
end-Probed report start (EndpointKind.syscall_entry name) h = ground (arith, h)
end-Probed report start (EndpointKind.syscall_exit name) h = ground (arith, h)
end-Probed report start EndpointKind.tracepoint h = ground (arith, h)
end-Probed report start EndpointKind.python_gc_start h = ground (arith, h)
end-Probed report start EndpointKind.python_gc_end h = ground (arith, h)
end-Probed report start (EndpointKind.cuda_api domain name) h = ground (arith, h)
end-Probed report start EndpointKind.kernel h = ground (arith, h)
end-Probed report start EndpointKind.memcpy h = ground (arith, h)
end-Probed report start EndpointKind.memset h = ground (arith, h)
end-Probed report start (EndpointKind.nvtx_range name_regex) h = ground (arith, h)

-- From what the callbacks and the activities of an endpoint are granted.
reported :
    (has : Capabilities) (injected : Bool) (kind : EndpointKind)
    → (needs_callback kind ≡ true → (has.cuda_callback ≡ true) ⊎ (injected ≡ true))
    → (needs_activity kind ≡ true → (has.cuda_activity ≡ true) ⊎ (injected ≡ true))
    → Reported has injected kind
unfolding needs_callback needs_activity
reported has injected EndpointKind.host_entry callback activity = tt
reported has injected EndpointKind.host_return callback activity = tt
reported has injected (EndpointKind.syscall_entry name) callback activity = tt
reported has injected (EndpointKind.syscall_exit name) callback activity = tt
reported has injected EndpointKind.tracepoint callback activity = tt
reported has injected EndpointKind.python_gc_start callback activity = tt
reported has injected EndpointKind.python_gc_end callback activity = tt
reported has injected (EndpointKind.cuda_api domain name) callback activity = callback refl
reported has injected EndpointKind.kernel callback activity = activity refl
reported has injected EndpointKind.memcpy callback activity = activity refl
reported has injected EndpointKind.memset callback activity = activity refl
reported has injected (EndpointKind.nvtx_range name_regex) callback activity = callback refl

or_left : (a b : Bool) → a ≡ true → (a || b) ≡ true
or_left a b h = rw h refl

or_right : (a b : Bool) → b ≡ true → (a || b) ≡ true
or_right a b h = ground arith

module _ (report : ProcessReport) (start end : Endpoint) (policy : MatchPolicy) where
  abbrev needs : ValidationRequirements
  needs = requirements_of report start.kind end.kind

  -- The tests that have failed when no check has an issue.
  granted :
      (policy_issues : List ErrorCode)
      → is_empty (issues_of report start end policy_issues) ≡ true
      → (not start.public.collectable ≡ false)
        × (not end.public.collectable ≡ false)
        × ((needs.needs_ebpf && lacks_probe report start.kind end.kind) ≡ false)
        × (is_startup needs.agent_activation ≡ false)
        × ((is_ready needs.agent_activation
              && needs.needs_cupti_callback
              && not report.capabilities.cuda_callback)
            ≡ false)
        × ((is_ready needs.agent_activation
              && needs.needs_cupti_activity
              && not report.capabilities.cuda_activity)
            ≡ false)
        × (is_empty policy_issues ≡ true)
  unfolding issues_of check_collectability check_capabilities
  granted policy_issues h =
      let (h1, accepted) = empty-append _ policy_issues h in
      let (h2, _) = empty-append _ (check_cupti_compatibility report needs) h1 in
      let (h3, capable) =
        empty-append _ (check_capabilities report start.kind end.kind needs).0 h2 in
      let (first, second) =
        empty-append (check_collectability start) (check_collectability end) h3 in
      let (c1, activity) =
        empty-append _
          (push_code
            (is_ready needs.agent_activation
              && needs.needs_cupti_activity
              && not report.capabilities.cuda_activity)
            ErrorCode.cupti_not_available)
          capable in
      let (c2, callback) =
        empty-append _
          (push_code
            (is_ready needs.agent_activation
              && needs.needs_cupti_callback
              && not report.capabilities.cuda_callback)
            ErrorCode.cupti_not_available)
          c1 in
      let (probes, startup) =
        empty-append
          (push_code (needs.needs_ebpf && lacks_probe report start.kind end.kind)
            ErrorCode.permission_denied)
          (push_code (is_startup needs.agent_activation) ErrorCode.cupti_agent_not_loaded) c2 in
      (
        push_code-empty _ _ first,
        push_code-empty _ _ second,
        push_code-empty _ _ probes,
        push_code-empty _ _ startup,
        push_code-empty _ _ callback,
        push_code-empty _ _ activity,
        accepted,
      )

  of_negation : (b : Bool) → not b ≡ false → b ≡ true
  of_negation true h = refl
  of_negation false h = cc

  -- A result with these requirements, whose issues are empty.
  issues_of-Grants :
      (checked : List ErrorCode × Bool)
      → check_policy start end policy ≡ some checked
      → (result : ValidationResult) → needs ≡ result.requirements
      → is_empty (issues_of report start end checked.0) ≡ true
      → Grants report start end policy result
  unfolding requirements_of
  issues_of-Grants checked c result e valid =
      let (first, second, probes, startup, callback, activity, accepted) =
        granted checked.0 valid in
      let loaded = report.cuda.xprobe_cupti_loaded in
      let nvtx = needs.needs_nvtx in
      let has = report.capabilities in
      let running = no_startup needs.agent_activation startup in
      let injected = needs.target_mutation in
      let callbacks : needs.needs_cupti_callback ≡ true
          → (has.cuda_callback ≡ true) ⊎ (injected ≡ true) =
        λ h. agent_granted _ loaded nvtx needs.needs_cupti_callback _ callback running h in
      let activities : needs.needs_cupti_activity ≡ true
          → (has.cuda_activity ≡ true) ⊎ (injected ≡ true) =
        λ h. agent_granted _ loaded nvtx needs.needs_cupti_activity _ activity running h in
      let start_reported =
        reported has injected start.kind
          (λ h. callbacks (or_left (needs_callback start.kind) (needs_callback end.kind) h))
          (λ h. activities (or_left (needs_activity start.kind) (needs_activity end.kind) h)) in
      let end_reported =
        reported has injected end.kind
          (λ h. callbacks (or_right (needs_callback start.kind) (needs_callback end.kind) h))
          (λ h. activities (or_right (needs_activity start.kind) (needs_activity end.kind) h)) in
      record {
        collectable = (of_negation _ first, of_negation _ second);
        probes = (
          start-Probed report start.kind end.kind probes,
          end-Probed report start.kind end.kind probes,
        );
        no_restart =
            subst (λ a. a ≢ AgentActivation.startup_required)
              (ap (λ (x : ValidationRequirements). x.agent_activation) e) running;
        reports =
            subst (λ m. Reported has m start.kind × Reported has m end.kind)
              (ap (λ (x : ValidationRequirements). x.target_mutation) e)
              (start_reported, end_reported);
        accepted = subst (λ o. accepts o ≡ true) (sym c) accepted;
      }

  -- If the validation of two endpoints and a policy gives a result that is valid, then both
  -- endpoints can be collected; the probe of each is available, which is a uprobe for the entry
  -- of a function and for Python, a uretprobe for a return, and a tracepoint for a system call or
  -- a tracepoint; the target need not be restarted; the callbacks of a CUDA call or an NVTX range
  -- and the activities of a kernel, a copy or a set are available or come with an injected agent;
  -- and the policy has no issue.
  pub validation_of-Grants :
      (result : ValidationResult)
      → validation_of report start end policy ≡ some result
      → result.valid ≡ true
      → Grants report start end policy result
  unfolding validation_of
  validation_of-Grants result h valid =
      let (checked, c, h1) = and_then-some (check_policy start end policy) _ h in
      let (recommendation, r, h2) = and_then-some (recommend_policy start end) _ h1 in
      let e = some-injective h2 in
      issues_of-Grants checked c result (ap (λ (x : ValidationResult). x.requirements) e)
        (ap (λ (x : ValidationResult). x.valid) e ∙ valid)
