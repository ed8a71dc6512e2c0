-- ===== src/Core/Resolve/Probe.antt =====
-- `ResolveError`, `Selector` and `parse_selector` of xprobe/core/src/resolve.rs.
use xprobe.Prelude.{ℕ, Bool, true, false, ◌||◌, if◌then◌else◌, none, some, is_empty}
use xprobe.Rust.Str.{
  Text, text, text_eq, strip_prefix, starts_with, split_once, rsplit_once, from_str_radix_16,
}
use xprobe.Rust.Io.{ErrorKind}
use xprobe.Rust.Result.{Result, ok, err, ◌>>=◌, ◌>>◌, ok_or, fail_if}
use xprobe.Protocol.Errors.{ErrorCode}
use xprobe.Core.Inspect.Fields.{InspectError}
use xprobe.Core.Inspect.Fields

pub data ResolveError (D : Type 0) : Type 0 where
  inspect : InspectError D → ResolveError D
  invalid_selector : (reason : Text) → ResolveError D
  binary_not_mapped : (path : Text) (pid : ℕ) → ResolveError D
  symbol_not_found ambiguous_symbol : (symbol path : Text) → ResolveError D
  offset_not_loadable address_not_mapped : (offset : ℕ) (path : Text) → ResolveError D
  io : (path : Text) (source : ErrorKind) → ResolveError D
  invalid_maps invalid_elf : (path reason : Text) → ResolveError D
  unsupported_elf : (path : Text) → ResolveError D

module _ {D : Type 0} where
  unfoldable pub code : ResolveError D → ErrorCode
  unfolding Fields.code
  code (ResolveError.inspect error) = Fields.code error
  code (ResolveError.invalid_selector reason) = ErrorCode.invalid_event_selector
  code (ResolveError.offset_not_loadable offset path) = ErrorCode.invalid_event_selector
  code (ResolveError.binary_not_mapped path pid) = ErrorCode.binary_not_mapped
  code (ResolveError.address_not_mapped offset path) = ErrorCode.binary_not_mapped
  code (ResolveError.symbol_not_found symbol path) = ErrorCode.symbol_not_found
  code (ResolveError.ambiguous_symbol symbol path) = ErrorCode.ambiguous_target
  code (ResolveError.io path source) = ErrorCode.internal
  code (ResolveError.invalid_maps path reason) = ErrorCode.internal
  code (ResolveError.invalid_elf path reason) = ErrorCode.internal
  code (ResolveError.unsupported_elf path) = ErrorCode.internal

  unfoldable pub recoverable : ResolveError D → Bool
  unfolding Fields.recoverable
  recoverable (ResolveError.inspect error) = Fields.recoverable error
  recoverable (ResolveError.invalid_selector reason) = true
  recoverable (ResolveError.binary_not_mapped path pid) = true
  recoverable (ResolveError.symbol_not_found symbol path) = true
  recoverable (ResolveError.ambiguous_symbol symbol path) = true
  recoverable (ResolveError.offset_not_loadable offset path) = true
  recoverable (ResolveError.address_not_mapped offset path) = true
  recoverable (ResolveError.io path source) = false
  recoverable (ResolveError.invalid_maps path reason) = false
  recoverable (ResolveError.invalid_elf path reason) = false
  recoverable (ResolveError.unsupported_elf path) = false

pub data Boundary : Type 0 where
  entry return : Boundary

pub data ProbeTarget : Type 0 where
  symbol : (name : Text) → ProbeTarget
  file_offset : (offset : ℕ) → ProbeTarget

pub record Selector : Type 0 where
  pub binary : Text
  pub target : ProbeTarget
  pub boundary : Boundary

module _ {D : Type 0} where
  unfoldable pub parse_boundary : (boundary : Text) → Result Boundary (ResolveError D)
  unfolding text_eq
  parse_boundary boundary =
      if text_eq boundary (text "entry")
      then ok Boundary.entry
      else if text_eq boundary (text "return")
      then ok Boundary.return
      else err (ResolveError.invalid_selector (text "probe boundary must be entry or return"))

  -- The path and the target of a probe.
  unfoldable pub split_binary : (binary_and_target : Text) → Result (Text × Text) (ResolveError D)
  unfolding split_once rsplit_once
  split_binary binary_and_target = elim (split_once (text ":symbol=") binary_and_target) [
    | some parts ↦ ok parts
    | none ↦
        ok_or (rsplit_once b':' binary_and_target)
          (ResolveError.invalid_selector (text "expected binary path and symbol or offset"))
  ]

  unfoldable pub parse_target : (target : Text) → Result ProbeTarget (ResolveError D)
  unfolding strip_prefix from_str_radix_16 starts_with
  parse_target target = elim (strip_prefix (text "+0x") target) [
    | some hex ↦
        ok_or (from_str_radix_16 hex)
          (ResolveError.invalid_selector (text "offset must be hexadecimal after +0x"))
        >>= λ offset. ok (ProbeTarget.file_offset offset)
    | none ↦
        if starts_with (text "+") target
        then err (ResolveError.invalid_selector (text "offset must use +0x hexadecimal syntax"))
        else ok (ProbeTarget.symbol target)
  ]

  unfoldable pub parse_selector : (selector : Text) → Result Selector (ResolveError D)
  unfolding strip_prefix rsplit_once parse_boundary split_binary parse_target
  parse_selector selector = do
    rest ←
        ok_or (strip_prefix (text "uprobe:") selector)
          (ResolveError.invalid_selector (text "expected uprobe: prefix"))
    halves ←
        ok_or (rsplit_once b':' rest)
          (ResolveError.invalid_selector (text "expected :entry or :return suffix"))
    boundary ← parse_boundary halves.1
    parts ← split_binary halves.0
    fail_if (is_empty parts.0 || is_empty parts.1)
        (ResolveError.invalid_selector (text "binary path and probe target must not be empty"))
    target ← parse_target parts.1
    ok (record { binary = parts.0; target = target; boundary = boundary })
