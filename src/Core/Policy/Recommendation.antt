-- ===== src/Core/Policy/Recommendation.antt =====
-- `recommend_policy` of xprobe/core/src/validate.rs against its `check_policy`.
use xprobe.Prelude.{
  ◌≡◌, refl, ◌∙◌, ◌≢◌, inl, inr, Bool, true, false, ◌&&◌, Option, none, some, List, [], ◌∷◌, arith,
  ◌==◌, if◌then◌else◌, Bool-cases, Option-cases, is_empty,
}
use xprobe.Protocol.Measurement.{MatchPolicy}
use xprobe.Protocol.Validate.{PolicyRecommendation}
use xprobe.Protocol.Errors.{ErrorCode}
use xprobe.Core.Policy.{
  text_eq, Endpoint, EndpointKind, contains, is_host_call, recommendation_of, supports_exact,
  supports_stream_order, supports_stack_nested, recommend_policy, check_policy,
}

abbrev pub is_function : EndpointKind → Bool
is_function EndpointKind.host_entry = true
is_function EndpointKind.host_return = true
is_function _ = false

-- An endpoint of a host function is resolved.
abbrev pub IsResolved : Endpoint → Type 0
IsResolved endpoint = is_function endpoint.kind ≡ true → endpoint.public.host ≢ none

abbrev pub accepts : Option (List ErrorCode × Bool) → Bool
accepts none = false
accepts (some (issues, warned)) = is_empty issues

-- A recommendation of the accepted policies.
pub record Recommends (start end : Endpoint) (r : Option PolicyRecommendation) : Type 0 where
  pub recommendation : PolicyRecommendation
  pub returns : r ≡ some recommendation
  pub complete :
      (policy : MatchPolicy)
      → contains recommendation.compatible_policies policy ≡ accepts (check_policy start end policy)
  pub among : contains recommendation.compatible_policies recommendation.policy ≡ true

host_call_functions :
    (a b : EndpointKind) → is_host_call a b ≡ true → (is_function a ≡ true) × (is_function b ≡ true)
host_call_functions a b h = (ground (arith, h), ground (arith, h))

pub supports_stack_nested-some :
    (start end : Endpoint)
    → IsResolved start
    → IsResolved end
    → (b : Bool) × (supports_stack_nested start end ≡ some b)
unfolding supports_stack_nested
supports_stack_nested-some start end h k = elim (Bool-cases (is_host_call start.kind end.kind)) [
  | inr other ↦ (false, rw other refl)
  | inl call ↦
      let functions = host_call_functions start.kind end.kind call in
      elim (Option-cases start.public.host) [
        | inl e ↦ absurd (h functions.0 e)
        | inr (s, e) ↦ elim (Option-cases end.public.host) [
          | inl f ↦ absurd (k functions.1 f)
          | inr (t, f) ↦ (
            text_eq s.binary_path t.binary_path && s.file_offset == t.file_offset,
            rw call (rw (e, supports_stack_nested) (rw f refl)),
          )
        ]
      ]
]

-- The policies of the tests, and the two that need none.
abbrev tested : (nested exact stream : Bool) → MatchPolicy → Bool
tested nested exact stream MatchPolicy.stack_nested = nested
tested nested exact stream MatchPolicy.exact = exact
tested nested exact stream MatchPolicy.stream_order = stream
tested nested exact stream _ = true

contains-recommendation_of :
    (nested exact stream : Bool) (policy : MatchPolicy)
    → contains (recommendation_of nested exact stream).compatible_policies policy
      ≡ tested nested exact stream policy
unfolding recommendation_of
contains-recommendation_of nested exact stream policy = ground arith

no_issue : (b : Bool) (code : ErrorCode) → b ≡ is_empty (if b then [] else code ∷ [])
no_issue true code = refl
no_issue false code = refl

tested-check_policy :
    (start end : Endpoint) (nested : Bool) (policy : MatchPolicy)
    → supports_stack_nested start end ≡ some nested
    → tested nested
        (supports_exact start.kind end.kind)
        (supports_stream_order start.kind end.kind)
        policy
      ≡ accepts (check_policy start end policy)
unfolding check_policy
tested-check_policy start end nested MatchPolicy.exact e =
    no_issue (supports_exact start.kind end.kind) ErrorCode.invalid_correlation_policy
tested-check_policy start end nested MatchPolicy.first_after e = refl
tested-check_policy start end nested MatchPolicy.nearest e = refl
tested-check_policy start end nested MatchPolicy.stack_nested e =
    rw (e, check_policy) (no_issue nested ErrorCode.invalid_correlation_policy)
tested-check_policy start end nested MatchPolicy.stream_order e =
    no_issue (supports_stream_order start.kind end.kind) ErrorCode.invalid_correlation_policy

among-recommendation_of :
    (nested exact stream : Bool)
    → (let r = recommendation_of nested exact stream in
        contains r.compatible_policies r.policy ≡ true)
unfolding recommendation_of
among-recommendation_of nested exact stream = ground arith

-- For endpoints whose host functions are resolved, `recommend_policy` does not panic, the
-- policies it lists are exactly those that `check_policy` accepts without an issue, and the one
-- it recommends is among them.
pub recommend_policy-Recommends :
    (start end : Endpoint)
    → IsResolved start
    → IsResolved end
    → Recommends start end (recommend_policy start end)
unfolding recommend_policy check_policy
recommend_policy-Recommends start end h k =
    let (nested, e) = supports_stack_nested-some start end h k in
    let exact = supports_exact start.kind end.kind in
    let stream = supports_stream_order start.kind end.kind in
    record {
      recommendation = recommendation_of nested exact stream;
      returns = rw (e, recommend_policy) refl;
      complete = λ policy.
          contains-recommendation_of nested exact stream policy
          ∙ tested-check_policy start end nested policy e;
      among = among-recommendation_of nested exact stream;
    }
