-- ===== src/Core/Validate/Kinds.antt =====
-- The parsers of xprobe/core/src/validate.rs other than that of probes give no function endpoints.
use xprobe.Prelude.{
  ◌≡◌, refl, Bool, true, false, not, ◌||◌, ◌&&◌, inl, inr, Option, none, some, List, [], ◌∷◌, arith,
  get_elem?, Bool-cases, Option-cases, if◌then◌else◌,
}
use xprobe.Rust.Str.{Text, text, text_eq, split, splitn, strip_prefix}
use xprobe.Rust.Result.{Result, OnOk}
use xprobe.Protocol.Event.{EventType}
use xprobe.Protocol.Validate.{ResolvedCudaSelector, ResolvedLinuxSelector}
use xprobe.Correlator.Regex.{is_bounded_name_regex}
use xprobe.Core.Policy.{EndpointKind}
use xprobe.Core.Policy.Recommendation.{is_function}
use xprobe.Core.Selectors.{
  parse_memcpy_selector, parse_memset_selector, parse_api_selector, api_fields,
  parse_kernel_selector, parse_nvtx_selector, parse_cuda_event, parse_cuda_selector,
  selector_fields,
}
use xprobe.Core.Validate.Linux.{
  python_event, parse_linux_selector, linux_fields, syscall_selector, valid_tracepoint_component,
}

abbrev pub LinuxEvent : ResolvedLinuxSelector × EndpointKind → Type 0
LinuxEvent parsed = is_function parsed.1 ≡ false

abbrev pub CudaEvent : ResolvedCudaSelector × EndpointKind × Bool → Type 0
CudaEvent parsed = is_function parsed.1 ≡ false

syscall_selector-kind : (name boundary : Text) → OnOk LinuxEvent (syscall_selector name boundary)
unfolding syscall_selector OnOk
syscall_selector-kind name boundary = ground arith

parse_kernel-kind :
    {R : Type 0} (regex_new : Text → Option R) (event : EventType) (filter : Option Text)
    → OnOk CudaEvent (parse_kernel_selector regex_new event filter)
unfolding parse_kernel_selector OnOk
parse_kernel-kind regex_new event none = refl
parse_kernel-kind regex_new event (some filter) = ground arith

parse_nvtx-kind :
    {R : Type 0} (regex_new : Text → Option R) (event : EventType) (filter : Option Text)
    → OnOk CudaEvent (parse_nvtx_selector regex_new event filter)
unfolding parse_nvtx_selector OnOk
parse_nvtx-kind regex_new event none = tt
parse_nvtx-kind regex_new event (some filter) =
    elim (Option-cases (strip_prefix (text "name~") filter)) [
      | inl e ↦ rw (e, parse_nvtx_selector) tt
      | inr (pattern, e) ↦
          rw (e, parse_nvtx_selector)
            (elim (Option-cases (regex_new pattern)) [
              | inl f ↦ rw f tt
              | inr (name, f) ↦ rw f (elim (Bool-cases (not (is_bounded_name_regex pattern))) [
                | inl g ↦ rw g tt
                | inr g ↦ rw g refl
              ])
            ])
    ]

parse_memcpy-kind :
    (event : EventType) (filter : Option Text) → OnOk CudaEvent (parse_memcpy_selector event filter)
unfolding parse_memcpy_selector OnOk
parse_memcpy-kind event none = refl
parse_memcpy-kind event (some filter) = ground arith

parse_memset-kind :
    (event : EventType) (filter : Option Text) → OnOk CudaEvent (parse_memset_selector event filter)
unfolding parse_memset_selector OnOk
parse_memset-kind event none = refl
parse_memset-kind event (some filter) = tt

api_fields-kind : (fields : List Text) → OnOk CudaEvent (api_fields fields)
unfolding OnOk
api_fields-kind [] = tt
api_fields-kind (a ∷ []) = tt
api_fields-kind (a ∷ b ∷ []) = tt
api_fields-kind (a ∷ b ∷ c ∷ []) = tt
api_fields-kind (a ∷ b ∷ c ∷ d ∷ []) = ground arith
api_fields-kind (a ∷ b ∷ c ∷ d ∷ e ∷ rest) = tt

OnOk-if :
    {A : Type 0} {E : Type 0} (Q : A → Type 0) (b : Bool) (x y : Result A E)
    → OnOk Q x
    → OnOk Q y
    → OnOk Q (if b then x else y)
OnOk-if Q true x y h k = h
OnOk-if Q false x y h k = k

module _ {R : Type 0} (regex_new : Text → Option R) where
  parse_cuda_event-kind :
      (selector event : Text) (filter : Option Text)
      → OnOk CudaEvent (parse_cuda_event regex_new selector event filter)
  unfolding parse_cuda_event parse_api_selector OnOk
  parse_cuda_event-kind selector event filter =
      let api = api_fields-kind (split b':' selector) in
      let kernel = λ (t : EventType). parse_kernel-kind regex_new t filter in
      let nvtx = λ (t : EventType). parse_nvtx-kind regex_new t filter in
      let copy = λ (t : EventType). parse_memcpy-kind t filter in
      let set = λ (t : EventType). parse_memset-kind t filter in
      let is = λ (name : Text). text_eq event name in
      let Q = CudaEvent in
      OnOk-if Q (is (text "runtime_api") || is (text "driver_api")) _ _ api (
        OnOk-if Q (is (text "kernel_start")) _ _ (kernel EventType.gpu_kernel_start) (
          OnOk-if Q (is (text "kernel_end")) _ _ (kernel EventType.gpu_kernel_end) (
            OnOk-if Q (is (text "memcpy_start")) _ _ (copy EventType.gpu_memcpy_start) (
              OnOk-if Q (is (text "memcpy_end")) _ _ (copy EventType.gpu_memcpy_end) (
                OnOk-if Q (is (text "memset_start")) _ _ (set EventType.gpu_memset_start) (
                  OnOk-if Q (is (text "memset_end")) _ _ (set EventType.gpu_memset_end) (
                    OnOk-if Q (is (text "nvtx_range_start")) _ _ (nvtx EventType.nvtx_range_start) (
                      OnOk-if Q (is (text "nvtx_range_end")) _ _ (nvtx EventType.nvtx_range_end)
                        tt))))))))

  selector_fields-kind :
      (selector : Text) (fields : List Text)
      → OnOk CudaEvent (selector_fields regex_new selector fields)
  unfolding OnOk
  selector_fields-kind selector [] = tt
  selector_fields-kind selector (first ∷ []) = tt
  selector_fields-kind selector (first ∷ event ∷ rest) =
      OnOk-if CudaEvent (text_eq first (text "cuda")) _ _
        (parse_cuda_event-kind selector event (get_elem? rest 0)) tt

  pub parse_cuda_selector-kind :
      (selector : Text) → OnOk CudaEvent (parse_cuda_selector regex_new selector)
  unfolding parse_cuda_selector
  parse_cuda_selector-kind selector = selector_fields-kind selector (splitn 3 b':' selector)

linux_fields-kind : (fields : List Text) → OnOk LinuxEvent (linux_fields fields)
unfolding linux_fields OnOk
linux_fields-kind [] = tt
linux_fields-kind (a ∷ []) = tt
linux_fields-kind (a ∷ b ∷ []) = tt
linux_fields-kind (a ∷ b ∷ c ∷ []) =
    OnOk-if LinuxEvent (text_eq a (text "syscall")) _ _
      (OnOk-if LinuxEvent (valid_tracepoint_component b) _ _ (syscall_selector-kind b c) tt)
      (OnOk-if LinuxEvent
        (text_eq a (text "tracepoint")
          && valid_tracepoint_component b
          && valid_tracepoint_component c)
        _ _ refl tt)
linux_fields-kind (a ∷ b ∷ c ∷ d ∷ rest) = tt

pub parse_linux_selector-kind : (selector : Text) → OnOk LinuxEvent (parse_linux_selector selector)
unfolding parse_linux_selector
parse_linux_selector-kind selector = linux_fields-kind (split b':' selector)

abbrev pub PythonEvent : EventType × EndpointKind × Text → Type 0
PythonEvent event = is_function event.1 ≡ false

pub python_event-kind : (selector : Text) → OnOk PythonEvent (python_event selector)
unfolding python_event OnOk
python_event-kind selector =
    OnOk-if PythonEvent (text_eq selector (text "python:gc_start")) _ _ refl
      (OnOk-if PythonEvent (text_eq selector (text "python:gc_end")) _ _ refl tt)
