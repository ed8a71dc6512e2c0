-- ===== src/Core/CpuAnalysis/PerfMap.antt =====
-- The perf map that CPython writes: `parse_perf_map`, `find_perf_symbol` and `load_python_symbols` of
-- xprobe/core/src/cpu_sampling_analysis.rs.
use xprobe.Prelude.{
  ℕ, ◌+◌, ◌*◌, Bool, true, false, not, ◌||◌, leb, ltb, ◌==◌, if◌then◌else◌, Option, none, some,
  List, [], ◌∷◌, ◌++◌, is_empty, get_elem?, unwrap_or, and_then,
}
use xprobe.Rust.Str.{Text, text, splitn, from_str_radix_16}
use xprobe.Rust.Words.{checked_add, checked_sub}
use xprobe.Rust.Sort.{sort_by}
use xprobe.Rust.Fmt.{decimal}
use xprobe.Rust.Io.{ErrorKind, FileSystem, Moments}
use xprobe.Rust.Result.{Result, ok, err, ◌>>=◌, ◌>>◌, ok_or, fail_if, map_err}
use xprobe.Rust.Lines.{lines, valid_utf8}
use xprobe.Protocol.CpuSampling.{PythonSymbolizationStatus}
use xprobe.Core.CpuAnalysis.Errors.{CpuAnalysisError}

abbrev pub max_perf_map_bytes : ℕ
max_perf_map_bytes = 16 * 1024 * 1024

pub record PerfMapSymbol : Type 0 where
  pub start : ℕ
  pub end : ℕ
  pub name : Text

module _ {D : Type 0} where
  abbrev invalid_line : (path : Text) → (number : ℕ) → (reason : Text) → CpuAnalysisError D
  unfolding decimal
  invalid_line path number reason =
      CpuAnalysisError.invalid_perf_map path
        (text "line " ++ decimal number ++ text " has " ++ reason)

  abbrev overflowing_line : (path : Text) → (number : ℕ) → CpuAnalysisError D
  unfolding decimal
  overflowing_line path number =
      CpuAnalysisError.invalid_perf_map path
        (text "line " ++ decimal number ++ text " address range overflows")

  unfoldable parse_perf_line :
      (path : Text) → (number : ℕ) → (line : Text) → Result PerfMapSymbol (CpuAnalysisError D)
  unfolding splitn from_str_radix_16 checked_add invalid_line overflowing_line
  parse_perf_line path number line =
      let fields = splitn 3 32 line in
      let name = unwrap_or (get_elem? fields 2) [] in
      do
        start ←
            ok_or (from_str_radix_16 (unwrap_or (get_elem? fields 0) []))
              (invalid_line path number (text "an invalid address"))
        size ←
            ok_or (from_str_radix_16 (unwrap_or (get_elem? fields 1) []))
              (invalid_line path number (text "an invalid size"))
        fail_if (size == 0 || is_empty name)
            (invalid_line path number (text "an empty symbol or zero size"))
        end ← ok_or (checked_add start size) (overflowing_line path number)
        ok (record { start = start; end = end; name = name })

  -- The loop over the lines, the first of which has the given number.
  unfoldable perf_lines :
      (path : Text) → (number : ℕ) → List Text → Result (List PerfMapSymbol) (CpuAnalysisError D)
  unfolding parse_perf_line
  perf_lines path number [] = ok []
  perf_lines path number (line ∷ rest) =
      let later = perf_lines path (number + 1) rest in
      if is_empty line
      then later
      else (parse_perf_line path number line >>= λ symbol.
          later >>= λ symbols. ok (symbol ∷ symbols))

  unfoldable parse_perf_map :
      (contents path : Text) → Result (List PerfMapSymbol) (CpuAnalysisError D)
  unfolding lines perf_lines sort_by
  parse_perf_map contents path = do
    symbols ← perf_lines path 1 (lines contents)
    ok (sort_by (λ a b. leb a.start b.start) symbols)

-- `partition_point` of a slice that the test splits in two.
unfoldable pub partition_point {ℓ} : {A : Type ℓ} → (A → Bool) → List A → ℕ
partition_point p [] = 0
partition_point p (x ∷ xs) = if p x then partition_point p xs + 1 else 0

unfoldable pub find_perf_symbol : List PerfMapSymbol → (address : ℕ) → Option PerfMapSymbol
unfolding partition_point checked_sub
find_perf_symbol symbols address =
    and_then (checked_sub (partition_point (λ symbol. leb symbol.start address) symbols) 1)
      λ before.
        and_then (get_elem? symbols before)
          λ symbol. if ltb address symbol.end then some symbol else none

-- `matches!(detected_status, NotDetected | Unsupported)`.
abbrev is_settled : PythonSymbolizationStatus → Bool
is_settled PythonSymbolizationStatus.not_detected = true
is_settled PythonSymbolizationStatus.unsupported = true
is_settled _ = false

unfoldable pub perf_map_path : (pid : ℕ) → Text
unfolding decimal
perf_map_path pid =
    text "/proc/" ++ decimal pid ++ text "/root/tmp/perf-" ++ decimal pid ++ text ".map"

module _ {D : Type 0} where
  -- The map of a file that is there.
  unfoldable read_perf_map :
      FileSystem
      → (path : Text) → Result (List PerfMapSymbol × PythonSymbolizationStatus) (CpuAnalysisError D)
  unfolding valid_utf8 parse_perf_map
  read_perf_map fs path = do
    bytes ← map_err (CpuAnalysisError.io path) (fs.read path)
    fail_if (not (valid_utf8 bytes)) (CpuAnalysisError.invalid_utf8 path)
    symbols ← parse_perf_map bytes path
    ok (
      symbols,
      if is_empty symbols
          then PythonSymbolizationStatus.inactive
          else PythonSymbolizationStatus.active,
    )

  -- The first two moments see the size of the map and its bytes.
  unfoldable pub load_python_symbols :
      Moments
      → (pid : ℕ) → PythonSymbolizationStatus
      → Result (List PerfMapSymbol × PythonSymbolizationStatus) (CpuAnalysisError D)
  unfolding perf_map_path read_perf_map
  load_python_symbols fs pid detected_status =
      let path = perf_map_path pid in
      if is_settled detected_status then ok ([], detected_status) else elim ((fs 0).metadata path) [
        | err ErrorKind.not_found ↦ ok ([], PythonSymbolizationStatus.inactive)
        | err source ↦ err (CpuAnalysisError.io path source)
        | ok metadata ↦ do
          fail_if (ltb max_perf_map_bytes metadata.len)
              (CpuAnalysisError.limit (text "Python perf map bytes") metadata.len)
          read_perf_map (fs 1) path
      ]
