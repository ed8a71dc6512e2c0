-- ===== src/Core/CuptiCompat/Library.antt =====
-- `resolve_library` and `installed_libraries` of xprobe/core/src/cupti_compat.rs. Parameters: the run of
-- `ldconfig -p`, with the bytes of its output; the names in a directory; and the files that exist.
use xprobe.Rust.Lines.Lossy.{from_utf8_lossy}
use xprobe.Prelude.{
  ℕ, Bool, true, false, not, ◌&&◌, ◌==◌, if◌then◌else◌, Option, none, some, List, [], ◌∷◌, ◌++◌,
  is_some, is_some_and, get_elem?, and_then, unwrap_or,
}
use xprobe.Rust.Str.{starts_with, Text, text, strip_suffix, split_once}
use xprobe.Rust.Ord.{nat_ord}
use xprobe.Rust.BTreeMap.{BTreeMap, get, insert}
use xprobe.Rust.Fmt.{decimal}
use xprobe.Rust.Io.{ErrorKind}
use xprobe.Rust.Lines.{lines, split_whitespace, trim}
use xprobe.Rust.Result.{map_err, Result, ok, err, ◌>>=◌, ok_or}
use xprobe.Protocol.Process.{ProcessReport}
use xprobe.Core.CuptiCompat.{
  CuptiLibrary, CuptiCompatibilityError, is_supported, library_major, target_major, keys,
}

unfoldable loaded_library : (libraries : List Text) → (prefix : Text) → (major : ℕ) → Option Text
unfolding library_major strip_suffix
loaded_library [] prefix major = none
loaded_library (library ∷ rest) prefix major =
    if is_some_and (library_major library prefix) (λ m. m == major)
      && not (is_some (strip_suffix (text " (deleted)") library))
    then some library
    else loaded_library rest prefix major

abbrev Installed : Type 0
Installed = BTreeMap ℕ Text

-- The major to look for among the installed ones.
abbrev installed_major : Option ℕ → Installed → Result ℕ CuptiCompatibilityError
installed_major (some major) installed = ok major
installed_major none [] = err (CuptiCompatibilityError.library_not_found none)
installed_major none ((major, path) ∷ []) = ok major
installed_major none (first ∷ second ∷ rest) =
    err (CuptiCompatibilityError.ambiguous_installed_versions (keys (first ∷ second ∷ rest)))

-- The library among the installed ones.
unfoldable installed_library : Option ℕ → Installed → Result CuptiLibrary CuptiCompatibilityError
unfolding get
installed_library target installed = do
  major ← installed_major target installed
  path ← ok_or (get major installed) (CuptiCompatibilityError.library_not_found (some major))
  ok (record { major = major; path = path; already_loaded = false })

-- The library of a major that the target has loaded.
abbrev loaded_at : (libraries : List Text) → Option ℕ → Option CuptiLibrary
unfolding loaded_library
loaded_at libraries target = and_then target λ major.
    and_then (loaded_library libraries (text "libcupti.so.") major)
      λ path. some (record { major = major; path = path; already_loaded = true })

-- A line of the linker's cache: a supported major and a path.
unfoldable cache_line : (line : Text) → Option (ℕ × Text)
unfolding trim split_once split_whitespace library_major
cache_line line = and_then (split_once (text " => ") (trim line)) λ (halves : Text × Text).
    and_then
      (library_major (unwrap_or (get_elem? (split_whitespace halves.0) 0) []) (text "libcupti.so."))
      λ major. if is_supported major then some (major, halves.1) else none

unfoldable cache_lines : List Text → Installed → Installed
unfolding cache_line get insert
cache_lines [] libraries = libraries
cache_lines (line ∷ rest) libraries = elim (cache_line line) [
  | none ↦ cache_lines rest libraries
  | some (major, path) ↦
      cache_lines rest
        (if is_some (get major libraries) then libraries else insert major path libraries)
]

unfoldable parse_linker_cache : (output : Text) → Installed
unfolding lines cache_lines
parse_linker_cache output = cache_lines (lines output) []

pub record Output : Type 0 where
  pub success : Bool
  pub stdout : List ℕ
  pub stderr : List ℕ

unfoldable linker_cache_libraries :
    (ldconfig : Result Output ErrorKind) → Result Installed CuptiCompatibilityError
unfolding parse_linker_cache trim from_utf8_lossy
linker_cache_libraries (err ErrorKind.not_found) = ok []
linker_cache_libraries (err source) = err (CuptiCompatibilityError.io (text "ldconfig") source)
linker_cache_libraries (ok output) =
    if not output.success
    then err (CuptiCompatibilityError.linker_cache (trim (from_utf8_lossy output.stderr)))
    else ok (parse_linker_cache (from_utf8_lossy output.stdout))

-- The loop over `/usr/local`: the name of an entry is missing when it is not UTF-8.
unfoldable cuda_roots :
    (major : ℕ) → List (Result (Option Text) ErrorKind) → Result (List Text) CuptiCompatibilityError
unfolding starts_with decimal
cuda_roots major [] = ok []
cuda_roots major (entry ∷ rest) = do
  name ← map_err (CuptiCompatibilityError.io (text "/usr/local")) entry
  roots ← cuda_roots major rest
  ok (elim name [
    | none ↦ roots
    | some found ↦
        if starts_with (text "cuda-" ++ decimal major) found
        then (text "/usr/local/" ++ found) ∷ roots
        else roots
  ])

-- The places of the library below a root.
unfoldable root_paths : (major : ℕ) → List Text → List Text
unfolding decimal
root_paths major [] = []
root_paths major (root ∷ rest) =
    (root ++ text "/extras/CUPTI/lib64/libcupti.so." ++ decimal major)
    ∷ (root ++ text "/targets/x86_64-linux/lib/libcupti.so." ++ decimal major)
    ∷ (root ++ text "/lib64/libcupti.so." ++ decimal major)
    ∷ root_paths major rest

unfoldable known_cuda_paths :
    (local : Result (List (Result (Option Text) ErrorKind)) ErrorKind)
    → (major : ℕ) → Result (List Text) CuptiCompatibilityError
unfolding cuda_roots root_paths
known_cuda_paths (err ErrorKind.not_found) major =
    ok (root_paths major (text "/usr/local/cuda" ∷ []))
known_cuda_paths (err source) major = err (CuptiCompatibilityError.io (text "/usr/local") source)
known_cuda_paths (ok entries) major = do
  roots ← cuda_roots major entries
  ok (root_paths major (text "/usr/local/cuda" ∷ roots))

-- The first of the paths that is a file.
unfoldable first_file : (is_file : Text → Bool) → List Text → Option Text
first_file is_file [] = none
first_file is_file (path ∷ rest) = if is_file path then some path else first_file is_file rest

-- `/usr/local` is listed once for each major.
module _ (ldconfig : Result Output ErrorKind)
    (local : (major : ℕ) → Result (List (Result (Option Text) ErrorKind)) ErrorKind)
    (is_file : Text → Bool) where
  -- The loop over the supported majors.
  unfoldable known_libraries :
      (majors : List ℕ) → Installed → Result Installed CuptiCompatibilityError
  unfolding known_cuda_paths first_file insert
  known_libraries [] libraries = ok libraries
  known_libraries (major ∷ majors) libraries = known_cuda_paths (local major) major >>= λ paths.
      elim (first_file is_file paths) [
        | none ↦ known_libraries majors libraries
        | some path ↦ known_libraries majors (insert major path libraries)
      ]

  unfoldable installed_libraries : Result Installed CuptiCompatibilityError
  unfolding linker_cache_libraries known_libraries
  installed_libraries = do
    libraries ← linker_cache_libraries ldconfig
    known_libraries (12 ∷ 13 ∷ []) libraries

  unfoldable resolve_library : ProcessReport → Result CuptiLibrary CuptiCompatibilityError
  unfolding target_major loaded_at installed_library installed_libraries
  resolve_library report = target_major report >>= λ target.
      elim (loaded_at report.loaded_libraries target) [
        | some library ↦ ok library
        | none ↦ installed_libraries >>= installed_library target
      ]
