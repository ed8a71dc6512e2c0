-- ===== src/Core/CuptiCompat.antt =====
-- xprobe/core/src/cupti_compat.rs: the CUDA major of a target.
pub mod Major
pub mod Library
pub mod Examples
use xprobe.Prelude.{
  ◌||◌, ℕ, Bool, true, false, not, ◌&&◌, ltb, ◌==◌, if◌then◌else◌, Option, none, some, List, [],
  ◌∷◌, ◌++◌, map, any, is_some, is_some_and, get_elem?, and_then, unwrap_or, select, length,
}
use xprobe.Rust.Str.{Text, text, strip_prefix, strip_suffix, split, split_once}
use xprobe.Rust.Ord.{Ord, nat_ord}
use xprobe.Rust.BTreeMap.{BTreeMap, get, insert}
use xprobe.Rust.Fmt.{parse_unsigned, u32_mod}
use xprobe.Rust.Io.{ErrorKind}
use xprobe.Rust.Lines.{lines, split_whitespace, trim}
use xprobe.Rust.Result.{Result, ok, err, ◌>>=◌, ◌>>◌, ok_or}
use xprobe.Protocol.Errors.{ErrorCode}
use xprobe.Protocol.Process.{ProcessReport}
use xprobe.Core.Inspect.Fields.{file_name}

pub record CuptiLibrary : Type 0 where
  pub major : ℕ
  pub path : Text
  pub already_loaded : Bool

pub data CuptiCompatibilityError : Type 0 where
  conflicting_target_versions : List ℕ → CuptiCompatibilityError
  unsupported_major : ℕ → CuptiCompatibilityError
  ambiguous_installed_versions : List ℕ → CuptiCompatibilityError
  library_not_found : Option ℕ → CuptiCompatibilityError
  linker_cache : (detail : Text) → CuptiCompatibilityError
  io : (path : Text) (source : ErrorKind) → CuptiCompatibilityError

unfoldable pub code : CuptiCompatibilityError → ErrorCode
code (CuptiCompatibilityError.unsupported_major major) = ErrorCode.unsupported_cuda_version
code (CuptiCompatibilityError.conflicting_target_versions majors) =
    ErrorCode.unsupported_cuda_version
code (CuptiCompatibilityError.ambiguous_installed_versions majors) =
    ErrorCode.unsupported_cuda_version
code (CuptiCompatibilityError.library_not_found major) = ErrorCode.cupti_not_available
code (CuptiCompatibilityError.linker_cache detail) = ErrorCode.cupti_not_available
code (CuptiCompatibilityError.io path source) = ErrorCode.cupti_not_available

-- `SUPPORTED_MAJORS.contains(&major)`.
abbrev pub is_supported : ℕ → Bool
is_supported major = major == 12 || major == 13

unfoldable pub ensure_supported : (major : ℕ) → Result (Unit {0}) CuptiCompatibilityError
ensure_supported major =
    if is_supported major then ok tt else err (CuptiCompatibilityError.unsupported_major major)

unfoldable pub library_major : (path prefix : Text) → Option ℕ
unfolding file_name strip_prefix split parse_unsigned
library_major path prefix = and_then (file_name path) λ name.
    and_then (strip_prefix prefix name)
      λ suffix. and_then (get_elem? (split b'.' suffix) 0) (parse_unsigned u32_mod)

-- `BTreeSet<u32>`.
abbrev pub Majors : Type 0
Majors = BTreeMap ℕ (Unit {0})

unfoldable pub collect_majors : (libraries : List Text) → (prefix : Text) → Majors
unfolding library_major insert
collect_majors [] prefix = []
collect_majors (library ∷ rest) prefix =
    let others = collect_majors rest prefix in
    elim (library_major library prefix) [ none ↦ others | some major ↦ insert major tt others ]

-- Without the calendar versions.
unfoldable pub collect_target_cupti_majors : (libraries : List Text) → Majors
unfolding collect_majors
collect_target_cupti_majors libraries =
    select (λ (entry : ℕ × Unit {0}). ltb entry.0 100)
      (collect_majors libraries (text "libcupti.so."))

unfoldable pub union : Majors → Majors → Majors
unfolding insert
union [] others = others
union ((major, _) ∷ rest) others = insert major tt (union rest others)

-- The majors in ascending order.
abbrev pub keys : {V : Type 0} → BTreeMap ℕ V → List ℕ
keys {V = V} m = map (λ (entry : ℕ × V). entry.0) m

-- From the majors that the libraries name.
abbrev pub only_major : List ℕ → Result (Option ℕ) CuptiCompatibilityError
unfolding ensure_supported
only_major [] = ok none
only_major (major ∷ []) = ensure_supported major >> ok (some major)
only_major (first ∷ second ∷ rest) =
    err (CuptiCompatibilityError.conflicting_target_versions (first ∷ second ∷ rest))

unfoldable pub target_major_from_libraries :
    (libraries : List Text) → Result (Option ℕ) CuptiCompatibilityError
unfolding collect_target_cupti_majors collect_majors union only_major
target_major_from_libraries libraries = only_major (
    keys (
      union (collect_target_cupti_majors libraries)
        (collect_majors libraries (text "libcudart.so."))))

unfoldable pub target_major : ProcessReport → Result (Option ℕ) CuptiCompatibilityError
unfolding target_major_from_libraries
target_major report = target_major_from_libraries report.loaded_libraries
