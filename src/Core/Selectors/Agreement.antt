-- ===== src/Core/Selectors/Agreement.antt =====
-- The parsers of CUDA selectors of xprobe/core/src/validate.rs against those of
-- xprobe/correlator/src/lib.rs.
use xprobe.Prelude.{
  ◌≡◌, refl, inl, inr, Bool, true, false, Option, none, some, List, [], ◌∷◌, if◌then◌else◌,
  Bool-cases, Option-cases, get_elem?, is_empty,
}
use xprobe.Rust.Str.{Text, text, text_eq, strip_prefix, split, splitn}
use xprobe.Rust.Result.{Result, ok, err}
use xprobe.Protocol.Event.{EventType}
use xprobe.Correlator.Errors.{MeasureError}
use xprobe.Correlator.Regex.{is_bounded_name_regex}
use xprobe.Correlator.Selector.{
  Selector, host, syscall, tracepoint, python_gc, api, kernel, memcpy, memset, nvtx, memcpy_kind_of,
  parse_memcpy, parse_memset, parse_api, parse_kernel, parse_nvtx, parse_event, parse_cuda,
}
use xprobe.Correlator.Selector
use xprobe.Core.Policy.Agreement.{endpoint_of}
use xprobe.Core.Selectors.{
  InvalidSelector, Parsed, api_fields, selector_fields, parse_memcpy_selector,
  parse_memset_selector, parse_api_selector, parse_kernel_selector, parse_nvtx_selector,
  parse_cuda_event, parse_cuda_selector,
}

module _ {R : Type 0} where
  abbrev event_type_of : Selector R → EventType
  event_type_of (host event_type _ _ _) = event_type
  event_type_of (syscall event_type _) = event_type
  event_type_of (tracepoint _ _) = EventType.tracepoint
  event_type_of (python_gc event_type _) = event_type
  event_type_of (api event_type _ _) = event_type
  event_type_of (kernel event_type _) = event_type
  event_type_of (memcpy event_type _) = event_type
  event_type_of (memset event_type) = event_type
  event_type_of (nvtx event_type _ _) = event_type

  -- Both read a selector, of the same endpoint and event type, or both refuse it.
  unfoldable pub Agree : Parsed → Result (Selector R) MeasureError → Type 0
  Agree (ok (found, kind, collectable)) (ok selector) =
      (kind ≡ endpoint_of selector) × (found.event_type ≡ event_type_of selector)
  Agree (err e) (err f) = Unit
  Agree _ _ = ⊥

memcpy-Agree :
    (R : Type 0) (t : EventType) (filter : Option Text)
    → Agree (parse_memcpy_selector t filter) (parse_memcpy {R = R} t filter)
unfolding Agree parse_memcpy_selector parse_memcpy endpoint_of
memcpy-Agree R t none = (refl, refl)
memcpy-Agree R t (some filter) = elim (Option-cases (strip_prefix (text "kind=") filter)) [
  | inl e ↦ rw e tt
  | inr (kind, e) ↦ rw e (elim (Option-cases (memcpy_kind_of kind)) [
    | inl n ↦ rw n tt
    | inr (k, n) ↦ rw n (refl, refl)
  ])
]

memset-Agree :
    (R : Type 0) (t : EventType) (filter : Option Text)
    → Agree (parse_memset_selector t filter) (parse_memset {R = R} t filter)
unfolding Agree parse_memset_selector parse_memset endpoint_of
memset-Agree R t none = (refl, refl)
memset-Agree R t (some filter) = tt

boundary-Agree :
    (R : Type 0) (cuda domain name boundary : Text)
    → Agree
        (api_fields (cuda ∷ domain ∷ name ∷ boundary ∷ []))
        (Selector.api_fields {R = R} (cuda ∷ domain ∷ name ∷ boundary ∷ []))
unfolding Agree endpoint_of text_eq
boundary-Agree R cuda domain name boundary = elim (Bool-cases (is_empty name)) [
  | inl e ↦ rw e tt
  | inr e ↦ rw e (elim (Bool-cases (text_eq boundary (text "entry"))) [
    | inl b ↦ rw b (refl, refl)
    | inr b ↦ rw b (elim (Bool-cases (text_eq boundary (text "exit"))) [
      | inl c ↦ rw c (refl, refl)
      | inr c ↦ rw c tt
    ])
  ])
]

api_fields-Agree :
    (R : Type 0) (fields : List Text)
    → Agree (api_fields fields) (Selector.api_fields {R = R} fields)
unfolding Agree
api_fields-Agree R [] = tt
api_fields-Agree R (a ∷ []) = tt
api_fields-Agree R (a ∷ b ∷ []) = tt
api_fields-Agree R (a ∷ b ∷ c ∷ []) = tt
api_fields-Agree R (a ∷ b ∷ c ∷ d ∷ []) = boundary-Agree R a b c d
api_fields-Agree R (a ∷ b ∷ c ∷ d ∷ e ∷ rest) = tt

refused-Agree :
    (R : Type 0) (e : InvalidSelector) (f : MeasureError) → Agree {R = R} (err e) (err f)
unfolding Agree
refused-Agree R e f = tt

Agree-if :
    {R : Type 0} (b : Bool) (x x' : Parsed) (y y' : Result (Selector R) MeasureError)
    → Agree x y
    → Agree x' y'
    → Agree (if b then x else x') (if b then y else y')
Agree-if true x x' y y' h k = h
Agree-if false x x' y y' h k = k

module _ {R : Type 0} (regex_new : Text → Option R) where
  kernel-Agree :
      (t : EventType) (filter : Option Text)
      → Agree (parse_kernel_selector regex_new t filter) (parse_kernel regex_new t filter)
  unfolding Agree parse_kernel_selector parse_kernel endpoint_of
  kernel-Agree t none = (refl, refl)
  kernel-Agree t (some filter) = elim (Option-cases (strip_prefix (text "name~") filter)) [
    | inl e ↦ rw e tt
    | inr (pattern, e) ↦ rw e (elim (Bool-cases (is_empty pattern)) [
      | inl b ↦ rw b tt
      | inr b ↦ rw b (elim (Option-cases (regex_new pattern)) [
        | inl n ↦ rw n tt
        | inr (r, n) ↦ rw n (refl, refl)
      ])
    ])
  ]

  nvtx-Agree :
      (t : EventType) (filter : Option Text)
      → Agree (parse_nvtx_selector regex_new t filter) (parse_nvtx regex_new t filter)
  unfolding Agree parse_nvtx_selector parse_nvtx endpoint_of
  nvtx-Agree t none = tt
  nvtx-Agree t (some filter) = elim (Option-cases (strip_prefix (text "name~") filter)) [
    | inl e ↦ rw e tt
    | inr (pattern, e) ↦ rw e (elim (Bool-cases (is_bounded_name_regex pattern)) [
      | inl b ↦ rw b (elim (Option-cases (regex_new pattern)) [
        | inl n ↦ rw n tt
        | inr (r, n) ↦ rw n (refl, refl)
      ])
      | inr b ↦
          rw b (elim (Option-cases (regex_new pattern)) [ inl n ↦ rw n tt | inr (r, n) ↦ rw n tt ])
    ])
  ]

  event-Agree :
      (selector event : Text) (filter : Option Text)
      → Agree
          (parse_cuda_event regex_new selector event filter)
          (parse_event regex_new selector event filter)
  unfolding parse_cuda_event parse_event parse_api_selector parse_api
  event-Agree selector event filter =
      Agree-if _ _ _ _ _ (api_fields-Agree R (split b':' selector)) (
        Agree-if _ _ _ _ _ (kernel-Agree EventType.gpu_kernel_start filter) (
          Agree-if _ _ _ _ _ (kernel-Agree EventType.gpu_kernel_end filter) (
            Agree-if _ _ _ _ _ (memcpy-Agree R EventType.gpu_memcpy_start filter) (
              Agree-if _ _ _ _ _ (memcpy-Agree R EventType.gpu_memcpy_end filter) (
                Agree-if _ _ _ _ _ (memset-Agree R EventType.gpu_memset_start filter) (
                  Agree-if _ _ _ _ _ (memset-Agree R EventType.gpu_memset_end filter) (
                    Agree-if _ _ _ _ _ (nvtx-Agree EventType.nvtx_range_start filter) (
                      Agree-if _ _ _ _ _ (nvtx-Agree EventType.nvtx_range_end filter)
                        (refused-Agree R _ _)))))))))

  fields-Agree :
      (selector : Text) (fields : List Text)
      → Agree
          (selector_fields regex_new selector fields)
          (Selector.cuda_fields regex_new selector fields)
  unfolding Agree
  fields-Agree selector [] = tt
  fields-Agree selector (first ∷ []) = tt
  fields-Agree selector (first ∷ event ∷ rest) =
      Agree-if (text_eq first (text "cuda")) _ _ _ _ (event-Agree selector event (get_elem? rest 0))
        tt

  -- For every text and whatever expressions compile, the validation and the correlator read the
  -- same CUDA selectors: both refuse the text, or both read it, to the same kind of endpoint,
  -- with the same API or the same range pattern if it has one, and to the same event type.
  pub parse_cuda_selector-Agree :
      (selector : Text)
      → Agree (parse_cuda_selector regex_new selector) (parse_cuda regex_new selector)
  unfolding parse_cuda_selector parse_cuda
  parse_cuda_selector-Agree selector = fields-Agree selector (splitn 3 b':' selector)
