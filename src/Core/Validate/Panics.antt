-- ===== src/Core/Validate/Panics.antt =====
-- `run` of xprobe/core/src/validate.rs does not panic: its `unreachable!` and `expect`s are not met.
use xprobe.Prelude.{
  ◌≡◌, ◌⊎◌, refl, Bool, true, false, ◌||◌, inl, inr, Option, some, and_then, Bool-cases,
}
use xprobe.Rust.Str.{Text, text, starts_with}
use xprobe.Rust.Result.{◌>>◌, OnOk-get, OnOk, Result, ok, err, Result-cases, map_err}
use xprobe.Protocol.Event.{HostProbeKind}
use xprobe.Protocol.Measurement.{MatchPolicy}
use xprobe.Protocol.Process.{ProcessReport}
use xprobe.Protocol.Validate.{ResolvedProbe, ValidationResult}
use xprobe.Core.Policy.{Endpoint, check_policy}
use xprobe.Core.Policy.Recommendation.{
  is_function, IsResolved, recommend_policy-Recommends, supports_stack_nested-some,
}
use xprobe.Core.Validate.{
  python_event, parse_cuda_selector, parse_linux_selector, linux_endpoint, cuda_endpoint,
  python_endpoint, Target, ValidateError, probe_endpoint, resolve_endpoint, parse_match_policy,
}
use xprobe.Core.Validate.Kinds.{
  LinuxEvent, CudaEvent, PythonEvent, parse_linux_selector-kind, parse_cuda_selector-kind,
  python_event-kind,
}
use xprobe.Core.Validate.Run.{validation_of, run}

-- Resolution gives probes of functions in user space only.
pub record Userspace {D : Type 0} (target : Target D) : Type 0 where
  pub kinds :
      (is_end : Bool) (selector : Text) (probe : ResolvedProbe)
      → target.resolve is_end selector ≡ ok probe
      → (probe.probe_kind ≡ HostProbeKind.uprobe) ⊎ (probe.probe_kind ≡ HostProbeKind.uretprobe)

abbrev Returns : {A : Type 0} → Option A → Type 0
Returns {A = A} r = (a : A) × (r ≡ some a)

-- The endpoint of a probe of user space.
probe_endpoint-some :
    (selector : Text) (probe : ResolvedProbe)
    → (probe.probe_kind ≡ HostProbeKind.uprobe) ⊎ (probe.probe_kind ≡ HostProbeKind.uretprobe)
    → (endpoint : Endpoint) × (probe_endpoint selector probe ≡ some endpoint) × IsResolved endpoint
unfolding probe_endpoint
probe_endpoint-some selector probe (inl e) = rw e (_, refl, λ h k. cc)
probe_endpoint-some selector probe (inr e) = rw e (_, refl, λ h k. cc)

-- An endpoint that was given: a function endpoint has its probe.
abbrev Resolved : {D : Type 0} → Option (Result Endpoint (ValidateError D)) → Type 0
Resolved {D = D} r =
    (result : Result Endpoint (ValidateError D)) × (r ≡ some result) × OnOk IsResolved result

clash : (b : Bool) → b ≡ false → b ≡ true → ⊥
clash b h k = cc

module _ {D R : Type 0} (regex_new : Text → Option R) (target : Target D)
    (u : Userspace target) where
  linux_endpoint-OnOk : (selector : Text) → OnOk IsResolved (linux_endpoint {D = D} selector)
  unfolding linux_endpoint OnOk
  linux_endpoint-OnOk selector = elim (Result-cases (parse_linux_selector selector)) [
    | inr (x, e) ↦ rw (e, linux_endpoint) tt
    | inl (parsed, e) ↦
        rw (e, linux_endpoint)
          (λ k. absurd (
            clash (is_function parsed.1)
              (OnOk-get LinuxEvent (parse_linux_selector-kind selector) e) k))
  ]

  python_endpoint-OnOk :
      (is_end : Bool) (selector : Text) → OnOk IsResolved (python_endpoint target is_end selector)
  unfolding python_endpoint OnOk
  python_endpoint-OnOk is_end selector = elim (Result-cases (python_event selector)) [
    | inr (x, e) ↦ rw (e, python_endpoint) tt
    | inl (event, e) ↦
        rw (e, python_endpoint)
          (elim (Result-cases (target.find_python_gc_probes is_end)) [
            | inr (x, f) ↦ rw f tt
            | inl (path, f) ↦ rw f (λ k. absurd (
                clash (is_function event.1) (OnOk-get PythonEvent (python_event-kind selector) e)
                  k))
          ])
  ]

  cuda_endpoint-OnOk :
      (selector : Text) → OnOk IsResolved (cuda_endpoint {D = D} regex_new selector)
  unfolding cuda_endpoint OnOk
  cuda_endpoint-OnOk selector = elim (Result-cases (parse_cuda_selector regex_new selector)) [
    | inr (x, e) ↦ rw (e, cuda_endpoint) tt
    | inl (parsed, e) ↦
        rw (e, cuda_endpoint)
          (λ k. absurd (
            clash (is_function parsed.1)
              (OnOk-get CudaEvent (parse_cuda_selector-kind regex_new selector) e) k))
  ]

  resolve_endpoint-Resolved :
      (is_end : Bool) (selector : Text)
      → Resolved (resolve_endpoint regex_new target is_end selector)
  unfolding resolve_endpoint OnOk
  resolve_endpoint-Resolved is_end selector =
      elim (Bool-cases (starts_with (text "uprobe:") selector)) [
        | inl e ↦
            rw (e, resolve_endpoint)
              (elim (Result-cases (target.resolve is_end selector)) [
                | inr (source, f) ↦ rw f (_, refl, tt)
                | inl (probe, f) ↦
                    let (endpoint, made, is) =
                      probe_endpoint-some selector probe (u.kinds is_end selector probe f) in
                    rw f (rw made (ok endpoint, refl, is))
              ])
        | inr e ↦
            rw (e, resolve_endpoint)
              (elim (Bool-cases (
                starts_with (text "syscall:") selector
                || starts_with (text "tracepoint:") selector)) [
                  | inl f ↦ rw f (_, refl, linux_endpoint-OnOk selector)
                  | inr f ↦ rw f (elim (Bool-cases (starts_with (text "python:") selector)) [
                    | inl g ↦ rw g (_, refl, python_endpoint-OnOk is_end selector)
                    | inr g ↦ rw g (_, refl, cuda_endpoint-OnOk selector)
                  ])
                ])
      ]

check_policy-some :
    (start end : Endpoint) (policy : MatchPolicy)
    → IsResolved start
    → IsResolved end
    → Returns (check_policy start end policy)
unfolding check_policy
check_policy-some start end MatchPolicy.exact h k = (_, refl)
check_policy-some start end MatchPolicy.first_after h k = (_, refl)
check_policy-some start end MatchPolicy.nearest h k = (_, refl)
check_policy-some start end MatchPolicy.stack_nested h k =
    let (nested, e) = supports_stack_nested-some start end h k in rw (e, check_policy) (_, refl)
check_policy-some start end MatchPolicy.stream_order h k = (_, refl)

validation_of-some :
    (report : ProcessReport) (start end : Endpoint) (policy : MatchPolicy)
    → IsResolved start
    → IsResolved end
    → Returns (validation_of report start end policy)
unfolding validation_of
validation_of-some report start end policy h k =
    let (checked, e) = check_policy-some start end policy h k in
    let recommended = recommend_policy-Recommends start end h k in
    rw (e, validation_of) (rw recommended.returns (_, refl))

module _ {D R : Type 0} (regex_new : Text → Option R) (target : Target D)
    (u : Userspace target) where
  after_endpoints :
      (report : ProcessReport) (policy : Text) (s t : Endpoint)
      → IsResolved s
      → IsResolved t
      → (result : Result ValidationResult (ValidateError D)) × ((elim (parse_match_policy {D = D}
            policy) [
              | err error ↦ some (err error)
              | ok p ↦
                  and_then
                    (validation_of report s t p)
                    λ r. some (map_err ValidateError.inspect target.verify_after >> ok r)
            ])
          ≡ some result)
  after_endpoints report policy s t h k = elim (Result-cases (parse_match_policy {D = D} policy)) [
    | inr (error, e) ↦ rw e (_, refl)
    | inl (p, e) ↦ let (r, f) = validation_of-some report s t p h k in rw e (rw f (_, refl))
  ]

  -- If the resolution of probes only returns userspace probes, as `run` of the resolution does,
  -- then the validation returns for all selectors and policies: neither its `unreachable!` nor an
  -- `expect` panics.
  pub run-Returns :
      (report : ProcessReport) (start end policy : Text)
      → (result : Result ValidationResult (ValidateError D)) × (run regex_new target report start
            end policy
          ≡ some result)
  unfolding run
  run-Returns report start end policy = elim (Result-cases target.verify_before) [
    | inr (error, e) ↦ rw (e, run) (_, refl)
    | inl (_, e) ↦
        let (first, e1, h) = resolve_endpoint-Resolved regex_new target u false start in
        rw (e, run)
          (rw e1 (elim (Result-cases first) [
            | inr (error, f) ↦ rw f (_, refl)
            | inl (s, f) ↦
                let (second, e2, k) = resolve_endpoint-Resolved regex_new target u true end in
                rw f (
                  rw e2 (elim (Result-cases second) [
                    | inr (error, g) ↦ rw g (_, refl)
                    | inl (t, g) ↦ rw g (
                        after_endpoints report policy s t (OnOk-get IsResolved h f)
                          (OnOk-get IsResolved k g))
                  ]))
          ]))
  ]
