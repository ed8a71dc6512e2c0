-- ===== src/Core/CpuSampling/Python.antt =====
-- `python_symbolization_status` of xprobe/core/src/cpu_sampling.rs. `parse_object` stands for the
-- `object` crate.
use xprobe.Prelude.{
  ℕ, Bool, true, false, not, ◌&&◌, ◌||◌, ltb, ◌==◌, if◌then◌else◌, none, some, List, [], ◌∷◌, ◌++◌,
  any, is_some_and,
}
use xprobe.Rust.Str.{Text, text, text_eq, starts_with}
use xprobe.Rust.Ord.{nat_ord, list_ord}
use xprobe.Rust.BTreeMap.{BTreeMap, insert}
use xprobe.Rust.Io.{ErrorKind, FileSystem}
use xprobe.Rust.Result.{Result, ok, err, ◌>>=◌, map_err}
use xprobe.Protocol.Measurement.{Warning}
use xprobe.Protocol.Process.{ProcessReport}
use xprobe.Protocol.CpuSampling.{PythonSymbolizationStatus}
use xprobe.Core.Report.{warning}
use xprobe.Core.Object.{ObjectFile, ObjectSymbol}
use xprobe.Core.Inspect.Fields.{file_name}
use xprobe.Core.CpuAnalysis.PerfMap.{max_perf_map_bytes, perf_map_path}
use xprobe.Core.CpuAnalysis.Symbols.{Components, components}
use xprobe.Core.CpuSampling.Threads.{CpuSamplingError}

-- The candidates in order, each once: `sort` and `dedup` of paths.
unfoldable candidate_set : List Text → BTreeMap Components Text
unfolding components insert
candidate_set [] = []
candidate_set (path ∷ rest) = insert (components path) path (candidate_set rest)

abbrev is_libpython : (path : Text) → Bool
unfolding file_name starts_with
is_libpython path = is_some_and (file_name path) (starts_with (text "libpython"))

unfoldable python_libraries : List Text → List Text
unfolding is_libpython
python_libraries [] = []
python_libraries (path ∷ rest) =
    let others = python_libraries rest in if is_libpython path then path ∷ others else others

abbrev has_symbol : List Text → (name : Text) → Bool
unfolding text_eq
has_symbol symbols name = any (λ symbol. text_eq symbol name) symbols

-- `python_detected` and `trampoline_supported` after one more candidate.
unfoldable detect : List Text → Bool × Bool → Bool × Bool
unfolding has_symbol
detect symbols (python_detected, trampoline_supported) =
    if has_symbol symbols (text "Py_Initialize")
      || has_symbol symbols (text "_PyEval_EvalFrameDefault")
      || has_symbol symbols (text "PyUnstable_PerfMapState_Init")
    then (
      true,
      trampoline_supported
          || has_symbol symbols (text "_Py_trampoline_func_start")
            && has_symbol symbols (text "PyUnstable_WritePerfMapEntry"),
    )
    else (python_detected, trampoline_supported)

-- The names that are UTF-8.
unfoldable names_of : List ObjectSymbol → List Text
names_of [] = []
names_of (symbol ∷ rest) = elim symbol.name [
  | none ↦ names_of rest
  | some name ↦ name ∷ names_of rest
]

module _ {D : Type 0} (parse_object : List ℕ → Result ObjectFile Text) where
  -- The set of names by its elements: the code only tests what it contains.
  unfoldable elf_symbol_names : FileSystem → (path : Text) → Result (List Text) (CpuSamplingError D)
  unfolding names_of
  elf_symbol_names fs path = do
    bytes ← map_err (CpuSamplingError.io path) (fs.read path)
    file ← map_err (CpuSamplingError.invalid_elf path) (parse_object bytes)
    ok (names_of (file.symbols ++ file.dynamic_symbols))

  unfoldable detect_python :
      FileSystem
      → BTreeMap Components Text
      → Bool × Bool
      → Result (Bool × Bool) (CpuSamplingError D)
  unfolding elf_symbol_names detect
  detect_python fs [] found = ok found
  detect_python fs ((key, path) ∷ rest) found =
      elf_symbol_names fs path >>= λ symbols. detect_python fs rest (detect symbols found)

  -- The size of the perf map tells whether CPython writes it.
  unfoldable perf_map_status :
      FileSystem → (path : Text) → Result PythonSymbolizationStatus (CpuSamplingError D)
  perf_map_status fs path = elim (fs.metadata path) [
    | err ErrorKind.not_found ↦ ok PythonSymbolizationStatus.inactive
    | err source ↦ err (CpuSamplingError.io path source)
    | ok metadata ↦
        if ltb max_perf_map_bytes metadata.len
        then err (CpuSamplingError.limit (text "perf map bytes") metadata.len)
        else if metadata.is_file && not (metadata.len == 0)
        then ok PythonSymbolizationStatus.active
        else ok PythonSymbolizationStatus.inactive
  ]

  unfoldable pub python_symbolization_status :
      FileSystem → ProcessReport → Result PythonSymbolizationStatus (CpuSamplingError D)
  unfolding candidate_set python_libraries detect_python perf_map_path perf_map_status
  python_symbolization_status fs report =
      detect_python fs
        (candidate_set (report.executable ∷ python_libraries report.loaded_libraries))
        (false, false)
      >>= λ found.
          if not found.0
          then ok PythonSymbolizationStatus.not_detected
          else if not found.1
          then ok PythonSymbolizationStatus.unsupported
          else perf_map_status fs (perf_map_path report.target.pid)

-- The warning of a status.
abbrev pub python_warnings : (V : Type 0) → PythonSymbolizationStatus → List (Warning V)
python_warnings V PythonSymbolizationStatus.inactive =
    warning V (text "PYTHON_PERF_TRAMPOLINE_INACTIVE") (
      text
        "CPython perf trampoline support is present but inactive; native frames remain available")
    ∷ []
python_warnings V PythonSymbolizationStatus.unsupported =
    warning V (text "PYTHON_PERF_TRAMPOLINE_UNSUPPORTED") (
      text
        "the mapped CPython build does not expose perf trampoline symbols; native frames remain available")
    ∷ []
python_warnings V _ = []
