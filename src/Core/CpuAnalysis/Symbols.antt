-- ===== src/Core/CpuAnalysis/Symbols.antt =====
-- The symbols of the mapped modules and the symbolizer: `load_module`, `find_module_symbol` and
-- `Symbolizer` of xprobe/core/src/cpu_sampling_analysis.rs. A path is looked up by its components.
-- `parse_object` and `demangle` stand for the `object` and `cpp_demangle` crates, `error_text` for the
-- text of an I/O error.
use xprobe.Prelude.{
  ℕ, ◌+◌, ◌-◌, max, Bool, not, ◌&&◌, ◌||◌, leb, ltb, ◌==◌, if◌then◌else◌, Option, none, some, List,
  [], ◌∷◌, ◌++◌, map, select, is_empty, is_none_or, get_elem?, and_then,
}
use xprobe.Rust.Str.{Text, text, text_eq, split}
use xprobe.Rust.Words.{add_u64, checked_sub}
use xprobe.Rust.Ord.{nat_ord, list_ord}
use xprobe.Rust.BTreeMap.{BTreeMap, get, insert}
use xprobe.Rust.Fmt.{decimal, hex_encode}
use xprobe.Rust.Io.{ErrorKind, FileSystem, Moments}
use xprobe.Rust.Result.{Result, ok, err, ◌>>=◌, map_err}
use xprobe.Protocol.Measurement.{Warning}
use xprobe.Protocol.Process.{ProcessReport}
use xprobe.Protocol.CpuSampling.{CpuFrameLanguage, CpuStackFrame, PythonSymbolizationStatus}
use xprobe.Core.Report.{warning}
use xprobe.Core.Object.{
  ObjectFile, ObjectSymbol, Segment, demangle_cpp, virtual_address_to_file_offset,
}
use xprobe.Core.CpuAnalysis.Errors.{CpuAnalysisError}
use xprobe.Core.CpuAnalysis.Maps.{MapRegion, parse_executable_maps}
use xprobe.Core.CpuAnalysis.PerfMap.{
  PerfMapSymbol, partition_point, find_perf_symbol, load_python_symbols,
}

pub record ModuleSymbol : Type 0 where
  pub file_offset : ℕ
  pub size : ℕ
  pub name : Text

pub record Module : Type 0 where
  pub build_id : Option Text
  pub symbols : List ModuleSymbol

-- `entry(file_offset).and_modify(...).or_insert(...)`.
unfoldable add_symbol : ModuleSymbol → BTreeMap ℕ ModuleSymbol → BTreeMap ℕ ModuleSymbol
unfolding get insert
add_symbol symbol symbols = elim (get symbol.file_offset symbols) [
  | some current ↦
      insert symbol.file_offset (record current { size = max current.size symbol.size }) symbols
  | none ↦ insert symbol.file_offset symbol symbols
]

-- `into_values()`.
abbrev pub values {ℓ κ} : {K : Type ℓ} {V : Type κ} → BTreeMap K V → List V
values {K = K} {V = V} m = map (λ (entry : K × V). entry.1) m

module _ (demangle : Text → Option Text) where
  -- One turn of the loop over the symbols: `none` for those that `continue` passes over.
  unfoldable module_symbol : List Segment → ObjectSymbol → Option ModuleSymbol
  unfolding demangle_cpp virtual_address_to_file_offset
  module_symbol segments symbol =
      if not symbol.is_definition || not symbol.is_text
      then none
      else and_then symbol.name λ name.
        and_then (virtual_address_to_file_offset segments symbol.address) λ file_offset.
          some (record {
            file_offset = file_offset;
            size = symbol.size;
            name = elim (demangle_cpp demangle name) [ none ↦ name | some demangled ↦ demangled ];
          })

  unfoldable collect_symbols :
      List Segment → List ObjectSymbol → BTreeMap ℕ ModuleSymbol → BTreeMap ℕ ModuleSymbol
  unfolding module_symbol add_symbol
  collect_symbols segments [] symbols = symbols
  collect_symbols segments (symbol ∷ rest) symbols = elim (module_symbol segments symbol) [
    | none ↦ collect_symbols segments rest symbols
    | some found ↦ collect_symbols segments rest (add_symbol found symbols)
  ]

module _ (demangle : Text → Option Text) (parse_object : List ℕ → Result ObjectFile Text)
    (error_text : ErrorKind → Text) where
  unfoldable load_module : FileSystem → (path : Text) → Result Module Text
  unfolding collect_symbols hex_encode
  load_module fs path = do
    bytes ← map_err error_text (fs.read path)
    file ← parse_object bytes
    build_id ← file.build_id
    ok (record {
      build_id = elim build_id [ none ↦ none | some id ↦ some (hex_encode id) ];
      symbols =
          values (collect_symbols demangle file.segments (file.dynamic_symbols ++ file.symbols) []);
    })

-- The symbol that covers an offset, by its size or up to the next symbol.
abbrev pub covers : (offset : ℕ) → (next : Option ModuleSymbol) → ModuleSymbol → Bool
covers offset next symbol =
    not (symbol.size == 0) && ltb (offset - symbol.file_offset) symbol.size
    || symbol.size == 0 && is_none_or next (λ after. ltb offset after.file_offset)

unfoldable find_module_symbol : List ModuleSymbol → (offset : ℕ) → Option ModuleSymbol
unfolding partition_point checked_sub
find_module_symbol symbols offset =
    let index = partition_point (λ symbol. leb symbol.file_offset offset) symbols in
    and_then (checked_sub index 1) λ before.
      and_then (get_elem? symbols before)
        λ symbol. if covers offset (get_elem? symbols index) symbol then some symbol else none

-- The components of an absolute path.
abbrev pub Components : Type 0
Components = List Text

unfoldable pub components : (path : Text) → Components
unfolding split text_eq
components path =
    select (λ piece. not (is_empty piece || text_eq piece (text "."))) (split b'/' path)

pub record Symbolizer (V : Type 0) : Type 0 where
  pub maps : List MapRegion
  pub modules : BTreeMap Components Module
  pub python_symbols : List PerfMapSymbol
  pub python_status : PythonSymbolizationStatus
  pub warnings : List (Warning V)

-- The paths of the regions, each once.
unfoldable module_paths : List MapRegion → BTreeMap Components Text
unfolding components get insert
module_paths [] = []
module_paths (region ∷ rest) = insert (components region.path) region.path (module_paths rest)

module _ (V : Type 0) (demangle : Text → Option Text)
    (parse_object : List ℕ → Result ObjectFile Text) (error_text : ErrorKind → Text) where
  -- The loop over the paths, in their order.
  unfoldable load_modules :
      FileSystem → BTreeMap Components Text → BTreeMap Components Module × List (Warning V)
  unfolding load_module insert
  load_modules fs [] = ([], [])
  load_modules fs ((key, path) ∷ rest) =
      let (modules, warnings) = load_modules fs rest in
      elim (load_module demangle parse_object error_text fs path) [
        | ok module' ↦ ((key, module') ∷ modules, warnings)
        | err message ↦ (
          modules,
          warning V (text "NATIVE_MODULE_UNAVAILABLE")
                (text "could not symbolize " ++ path ++ text ": " ++ message)
              ∷ warnings,
        )
      ]

  -- The moments 0 to 3: the memory map, the modules, and the size and bytes of the perf map.
  unfoldable pub load :
      {D : Type 0}
      → Moments
      → ProcessReport
      → PythonSymbolizationStatus
      → Result (Symbolizer V) (CpuAnalysisError D)
  unfolding decimal parse_executable_maps module_paths load_modules load_python_symbols
  load fs report python_status =
      let maps_path = text "/proc/" ++ decimal report.target.pid ++ text "/maps" in
      do
        maps_text ← map_err (CpuAnalysisError.io maps_path) ((fs 0).read_to_string maps_path)
        maps ← parse_executable_maps maps_text maps_path
        python ← load_python_symbols (λ n. fs (n + 2)) report.target.pid python_status
        let loaded = load_modules (fs 1) (module_paths maps) in
            ok (record {
              maps = maps;
              modules = loaded.0;
              python_symbols = python.0;
              python_status = python.1;
              warnings = loaded.1;
            })

-- `maps.iter().find(...)`.
unfoldable find_mapping : List MapRegion → (address : ℕ) → Option MapRegion
find_mapping [] address = none
find_mapping (mapping ∷ rest) address =
    if leb mapping.start address && ltb address mapping.end
    then some mapping
    else find_mapping rest address

abbrev pub unresolved_frame : (address : ℕ) → CpuStackFrame
unresolved_frame address = record {
  address = address;
  module_path = none;
  build_id = none;
  file_offset = none;
  symbol = none;
  symbol_offset = none;
  language = CpuFrameLanguage.unknown;
  source_path = none;
  line = none;
}

abbrev pub python_frame : (address : ℕ) → PerfMapSymbol → CpuStackFrame
python_frame address symbol = record (unresolved_frame address) {
  symbol = some symbol.name;
  symbol_offset = some (address - symbol.start);
  language = CpuFrameLanguage.python;
}

-- The frame of an address in a mapping.
unfoldable native_frame : BTreeMap Components Module → (address : ℕ) → MapRegion → CpuStackFrame
unfolding add_u64 components get find_module_symbol
native_frame modules address mapping =
    let file_offset = add_u64 mapping.file_offset (address - mapping.start) in
    let found = get (components mapping.path) modules in
    let symbol = and_then found (λ module'. find_module_symbol module'.symbols file_offset) in
    record (unresolved_frame address) {
      module_path = some mapping.path;
      build_id = and_then found (λ module'. module'.build_id);
      file_offset = some file_offset;
      symbol = and_then symbol (λ s. some s.name);
      symbol_offset = and_then symbol (λ s. some (file_offset - s.file_offset));
      language = CpuFrameLanguage.native;
    }

module _ {V : Type 0} where
  unfoldable pub symbolize : Symbolizer V → (address : ℕ) → CpuStackFrame
  unfolding find_perf_symbol find_mapping native_frame
  symbolize symbolizer address = elim (find_perf_symbol symbolizer.python_symbols address) [
    | some symbol ↦ python_frame address symbol
    | none ↦ elim (find_mapping symbolizer.maps address) [
      | none ↦ unresolved_frame address
      | some mapping ↦ native_frame symbolizer.modules address mapping
    ]
  ]
