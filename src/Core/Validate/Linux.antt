-- ===== src/Core/Validate/Linux.antt =====
-- The selectors of system calls, tracepoints and Python of xprobe/core/src/validate.rs. The messages
-- of the errors are left out, as for CUDA selectors.
use xprobe.Prelude.{
  ℕ, Bool, not, ◌&&◌, ◌||◌, ◌==◌, if◌then◌else◌, Option, none, some, List, [], ◌∷◌, all, is_empty,
  is_some,
}
use xprobe.Rust.Str.{Text, text, text_eq, split, is_ascii_alphanumeric}
use xprobe.Rust.Result.{Result, ok, err, ◌>>=◌, ok_or}
use xprobe.Protocol.Event.{EventType, HostProbeKind}
use xprobe.Protocol.Validate.{ResolvedLinuxSelector}
use xprobe.Core.Policy.{EndpointKind}
use xprobe.Core.Selectors.{InvalidSelector, invalid_selector}
use xprobe.Core.SyscallNumbers.{syscall_number}

unfoldable pub valid_tracepoint_component : Text → Bool
unfolding is_ascii_alphanumeric
valid_tracepoint_component value =
    not (is_empty value) && all (λ byte. is_ascii_alphanumeric byte || byte == b'_') value

abbrev pub ParsedLinux : Type 0
ParsedLinux = Result (ResolvedLinuxSelector × EndpointKind) InvalidSelector

abbrev pub linux_selector :
    EventType → HostProbeKind → (category name : Text) → Option ℕ → ResolvedLinuxSelector
linux_selector event_type probe_kind category name number = record {
  event_type = event_type;
  probe_kind = probe_kind;
  category = category;
  name = name;
  syscall_number = number;
  binary_path = none;
  provider = none;
}

-- Built for x86_64.
unfoldable pub syscall_selector : (name boundary : Text) → ParsedLinux
syscall_selector name boundary = do
  number ← ok_or (syscall_number name) invalid_selector
  if text_eq boundary (text "entry")
      then ok (
        linux_selector EventType.syscall_entry HostProbeKind.syscall (text "syscalls") name
            (some number),
        EndpointKind.syscall_entry name,
      )
      else if text_eq boundary (text "exit")
      then ok (
        linux_selector EventType.syscall_exit HostProbeKind.syscall (text "syscalls") name
            (some number),
        EndpointKind.syscall_exit name,
      )
      else err invalid_selector

unfoldable pub linux_fields : List Text → ParsedLinux
linux_fields (first ∷ second ∷ third ∷ []) =
    if text_eq first (text "syscall")
    then (if valid_tracepoint_component second
        then syscall_selector second third
        else err invalid_selector)
    else if text_eq first (text "tracepoint")
        && valid_tracepoint_component second
        && valid_tracepoint_component third
    then ok (
      linux_selector EventType.tracepoint HostProbeKind.tracepoint second third none,
      EndpointKind.tracepoint,
    )
    else err invalid_selector
linux_fields _ = err invalid_selector

unfoldable pub parse_linux_selector : (selector : Text) → ParsedLinux
unfolding split linux_fields
parse_linux_selector selector = linux_fields (split b':' selector)

-- The event, its kind and its probe.
unfoldable pub python_event :
    (selector : Text) → Result (EventType × EndpointKind × Text) InvalidSelector
unfolding text_eq
python_event selector =
    if text_eq selector (text "python:gc_start")
    then ok (EventType.python_gc_start, EndpointKind.python_gc_start, text "gc__start")
    else if text_eq selector (text "python:gc_end")
    then ok (EventType.python_gc_end, EndpointKind.python_gc_end, text "gc__done")
    else err invalid_selector

-- The selector of a Python event, with the binary that has its probes.
abbrev pub python_selector :
    EventType × EndpointKind × Text
    → (binary_path : Option Text) → ResolvedLinuxSelector × EndpointKind × Bool
python_selector (event_type, kind, name) binary_path = (
  record (linux_selector event_type HostProbeKind.usdt (text "python") name none) {
    binary_path = binary_path;
    provider = some (text "python");
  },
  kind,
  is_some binary_path,
)
