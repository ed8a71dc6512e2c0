-- ===== src/Correlator/Selector.antt =====
-- `Selector` of xprobe/correlator/src/lib.rs: its type and its parsers. The regex crate is not part of
-- the repository: `R` is its compiled expressions, and `regex_new` stands for `Regex::new`.
use xprobe.Prelude.{
  ℕ, not, ◌||◌, Option, none, some, List, [], ◌∷◌, if◌then◌else◌, get_elem?, is_empty,
}
use xprobe.Rust.Str.{
  Text, text, text_eq, strip_prefix, starts_with, split, splitn, split_once, rsplit_once,
  from_str_radix_16,
}
use xprobe.Rust.Result.{Result, ok, err, ◌>>=◌, ok_or}
use xprobe.Protocol.Event.{EventType, HostProbeKind, MemcpyKind}
use xprobe.Correlator.Errors.{
  MeasureError, invalid_selector, SelectorReason, not_in_completed_captures, unknown_event,
  host_boundary_missing, host_boundary_invalid, host_target_missing, host_part_empty,
  host_offset_not_hex, host_offset_syntax, api_shape, api_boundary, syscall_shape, syscall_name,
  syscall_boundary, tracepoint_shape, tracepoint_name, python_shape, kernel_filter,
  kernel_regex_empty, kernel_regex_invalid, memcpy_filter, memcpy_kind, memset_filter,
  nvtx_filter_missing, nvtx_filter, nvtx_unbounded, nvtx_regex_invalid,
}
use xprobe.Correlator.Regex.{is_bounded_name_regex, valid_linux_component}

pub data HostTarget : Type 0 where
  symbol : Text → HostTarget
  offset : ℕ → HostTarget

pub data Selector (R : Type 0) : Type 0 where
  host :
      (event_type : EventType) (probe_kind : HostProbeKind) (binary_path : Text)
      (target : HostTarget)
      → Selector R
  syscall : (event_type : EventType) (name : Text) → Selector R
  tracepoint : (category name : Text) → Selector R
  python_gc : (event_type : EventType) (marker : Text) → Selector R
  api : (event_type : EventType) (domain name : Text) → Selector R
  kernel : (event_type : EventType) (name : Option R) → Selector R
  memcpy : (event_type : EventType) (kind : Option MemcpyKind) → Selector R
  memset : (event_type : EventType) → Selector R
  nvtx : (event_type : EventType) (name : R) (pattern : Text) → Selector R

abbrev pub Parsed : Type 0 → Type 0
Parsed A = Result A MeasureError

abbrev pub refuse {ℓ} : {A : Type ℓ} → SelectorReason → Result A MeasureError
refuse reason = err (invalid_selector reason)

-- One of two words, or an error.
abbrev pub either_word {ℓ} :
    {A : Type ℓ} → Text → Text → Text → A → A → SelectorReason → Result A MeasureError
either_word word first second a b reason =
    if text_eq word first then ok a else if text_eq word second then ok b else refuse reason

unfoldable pub parse_target : Text → Parsed HostTarget
unfolding strip_prefix starts_with from_str_radix_16
parse_target target = elim (strip_prefix (text "+0x") target) [
  | some hex ↦ do
    value ← ok_or (from_str_radix_16 hex) (invalid_selector host_offset_not_hex)
    ok (offset value)
  | none ↦ if starts_with (text "+") target then refuse host_offset_syntax else ok (symbol target)
]

-- `split_once(":symbol=")`, else `rsplit_once(':')`.
unfoldable split_target : Text → Parsed (Text × Text)
unfolding split_once rsplit_once
split_target binary_and_target = elim (split_once (text ":symbol=") binary_and_target) [
  | some parts ↦ ok parts
  | none ↦ ok_or (rsplit_once b':' binary_and_target) (invalid_selector host_target_missing)
]

unfoldable pub memcpy_kind_of : Text → Option MemcpyKind
unfolding text_eq
memcpy_kind_of kind =
    if text_eq kind (text "HtoD")
    then some MemcpyKind.host_to_device
    else if text_eq kind (text "DtoH")
    then some MemcpyKind.device_to_host
    else if text_eq kind (text "DtoD")
    then some MemcpyKind.device_to_device
    else if text_eq kind (text "HtoH")
    then some MemcpyKind.host_to_host
    else if text_eq kind (text "PtoP")
    then some MemcpyKind.peer_to_peer
    else none

module _ {R : Type 0} where
  -- What follows `uprobe:`.
  unfoldable parse_host : Text → Parsed (Selector R)
  unfolding rsplit_once split_target parse_target text_eq
  parse_host rest = do
    (binary_and_target, boundary) ←
        ok_or (rsplit_once b':' rest) (invalid_selector host_boundary_missing)
    (event_type, probe_kind) ←
        either_word boundary (text "entry") (text "return")
          (EventType.host_function_entry, HostProbeKind.uprobe)
          (EventType.host_function_exit, HostProbeKind.uretprobe) host_boundary_invalid
    (binary_path, target) ← split_target binary_and_target
    if is_empty binary_path || is_empty target
        then refuse host_part_empty
        else do parsed ← parse_target target; ok (host event_type probe_kind binary_path parsed)

  abbrev pub api_fields : List Text → Parsed (Selector R)
  api_fields (cuda ∷ domain ∷ name ∷ boundary ∷ []) = if is_empty name then refuse api_shape else do
    event_type ←
        either_word boundary (text "entry") (text "exit") EventType.cuda_api_entry
          EventType.cuda_api_exit api_boundary
    ok (api event_type domain name)
  api_fields _ = refuse api_shape

  unfoldable pub parse_api : Text → Parsed (Selector R)
  unfolding split text_eq
  parse_api t = api_fields (split b':' t)

  abbrev syscall_fields : List Text → Parsed (Selector R)
  syscall_fields (word ∷ name ∷ boundary ∷ []) =
      if not (text_eq word (text "syscall"))
      then refuse syscall_shape
      else if not (valid_linux_component name)
      then refuse syscall_name
      else do
        event_type ←
            either_word boundary (text "entry") (text "exit") EventType.syscall_entry
              EventType.syscall_exit syscall_boundary
        ok (syscall event_type name)
  syscall_fields _ = refuse syscall_shape

  unfoldable parse_syscall : Text → Parsed (Selector R)
  unfolding split text_eq valid_linux_component
  parse_syscall t = syscall_fields (split b':' t)

  abbrev tracepoint_fields : List Text → Parsed (Selector R)
  tracepoint_fields (word ∷ category ∷ name ∷ []) =
      if not (text_eq word (text "tracepoint"))
      then refuse tracepoint_shape
      else if not (valid_linux_component category) || not (valid_linux_component name)
      then refuse tracepoint_name
      else ok (tracepoint category name)
  tracepoint_fields _ = refuse tracepoint_shape

  unfoldable parse_tracepoint : Text → Parsed (Selector R)
  unfolding split text_eq valid_linux_component
  parse_tracepoint t = tracepoint_fields (split b':' t)

  unfoldable parse_python : Text → Parsed (Selector R)
  unfolding text_eq
  parse_python t =
      either_word t (text "python:gc_start") (text "python:gc_end")
        (python_gc EventType.python_gc_start (text "gc__start"))
        (python_gc EventType.python_gc_end (text "gc__done")) python_shape

  -- The match on `fields[1]` of this and the next three parsers is made in `parse_cuda`; the filter
  -- is `fields.get(2)`.
  unfoldable pub parse_memcpy : EventType → Option Text → Parsed (Selector R)
  unfolding strip_prefix memcpy_kind_of
  parse_memcpy event_type none = ok (memcpy event_type none)
  parse_memcpy event_type (some filter) = do
    kind ← ok_or (strip_prefix (text "kind=") filter) (invalid_selector memcpy_filter)
    known ← ok_or (memcpy_kind_of kind) (invalid_selector memcpy_kind)
    ok (memcpy event_type (some known))

  unfoldable pub parse_memset : EventType → Option Text → Parsed (Selector R)
  parse_memset event_type none = ok (memset event_type)
  parse_memset event_type (some filter) = refuse memset_filter

module _ {R : Type 0} (regex_new : Text → Option R) where
  unfoldable pub parse_kernel : EventType → Option Text → Parsed (Selector R)
  unfolding strip_prefix
  parse_kernel event_type none = ok (kernel event_type none)
  parse_kernel event_type (some filter) = do
    pattern ← ok_or (strip_prefix (text "name~") filter) (invalid_selector kernel_filter)
    if is_empty pattern then refuse kernel_regex_empty else do
      name ← ok_or (regex_new pattern) (invalid_selector kernel_regex_invalid)
      ok (kernel event_type (some name))

  unfoldable pub parse_nvtx : EventType → Option Text → Parsed (Selector R)
  unfolding strip_prefix is_bounded_name_regex
  parse_nvtx event_type none = refuse nvtx_filter_missing
  parse_nvtx event_type (some filter) = do
    pattern ← ok_or (strip_prefix (text "name~") filter) (invalid_selector nvtx_filter)
    if not (is_bounded_name_regex pattern) then refuse nvtx_unbounded else do
      name ← ok_or (regex_new pattern) (invalid_selector nvtx_regex_invalid)
      ok (nvtx event_type name pattern)

  -- `match fields[1]`.
  unfoldable pub parse_event : Text → Text → Option Text → Parsed (Selector R)
  unfolding text_eq parse_api parse_kernel parse_memcpy parse_memset parse_nvtx
  parse_event t event filter =
      if text_eq event (text "runtime_api") || text_eq event (text "driver_api")
      then parse_api t
      else if text_eq event (text "kernel_start")
      then parse_kernel EventType.gpu_kernel_start filter
      else if text_eq event (text "kernel_end")
      then parse_kernel EventType.gpu_kernel_end filter
      else if text_eq event (text "memcpy_start")
      then parse_memcpy EventType.gpu_memcpy_start filter
      else if text_eq event (text "memcpy_end")
      then parse_memcpy EventType.gpu_memcpy_end filter
      else if text_eq event (text "memset_start")
      then parse_memset EventType.gpu_memset_start filter
      else if text_eq event (text "memset_end")
      then parse_memset EventType.gpu_memset_end filter
      else if text_eq event (text "nvtx_range_start")
      then parse_nvtx EventType.nvtx_range_start filter
      else if text_eq event (text "nvtx_range_end")
      then parse_nvtx EventType.nvtx_range_end filter
      else refuse unknown_event

  abbrev pub cuda_fields : Text → List Text → Parsed (Selector R)
  cuda_fields t (first ∷ event ∷ rest) =
      if text_eq first (text "cuda")
      then parse_event t event (get_elem? rest 0)
      else refuse not_in_completed_captures
  cuda_fields t _ = refuse not_in_completed_captures

  unfoldable pub parse_cuda : Text → Parsed (Selector R)
  unfolding splitn text_eq parse_event
  parse_cuda t = cuda_fields t (splitn 3 b':' t)

  unfoldable pub parse : Text → Parsed (Selector R)
  unfolding strip_prefix starts_with parse_host parse_syscall parse_tracepoint parse_python
      parse_cuda
  parse t = elim (strip_prefix (text "uprobe:") t) [
    | some rest ↦ parse_host rest
    | none ↦
        if starts_with (text "syscall:") t
        then parse_syscall t
        else if starts_with (text "tracepoint:") t
        then parse_tracepoint t
        else if starts_with (text "python:") t
        then parse_python t
        else parse_cuda t
  ]
