-- ===== src/Core/Resolve.antt =====
-- `run` of xprobe/core/src/resolve.rs: a userspace probe in an inspected process. `parse_object` and
-- `demangle` stand for the `object` and `cpp_demangle` crates.
pub mod Probe
pub mod Maps
pub mod Symbols
pub mod Place
pub mod Hints
pub mod Examples
use xprobe.Rust.Lines.Lossy.{from_utf8_lossy}
use xprobe.Prelude.{
  ◌++◌, ℕ, ◌+◌, ◌-◌, Bool, true, false, ◌&&◌, if◌then◌else◌, Option, none, some, List, [], ◌∷◌,
  select, is_empty, and_then,
}
use xprobe.Rust.Str.{Text, text}
use xprobe.Rust.Words.{add_u64}
use xprobe.Rust.Fmt.{decimal, hex_encode}
use xprobe.Rust.Io.{ErrorKind, FileSystem, Moments}
use xprobe.Rust.Result.{Result, ok, err, ◌>>=◌, ◌>>◌, ok_or, fail_if, map_err}
use xprobe.Protocol.Event.{SchemaVersion, HostProbeKind}
use xprobe.Protocol.Validate.{ElfObjectKind, ResolvedProbe}
use xprobe.Protocol.Process.{ProcessReport}
use xprobe.Core.Inspect.{verify_target}
use xprobe.Core.Object.{ObjectKind, ObjectFile}
use xprobe.Core.CpuAnalysis.Maps.{MapRegion}
use xprobe.Core.Resolve.Probe.{ResolveError, Boundary, Selector, parse_selector}
use xprobe.Core.Resolve.Maps.{parse_maps, map_path_matches, region_contains_offset}
use xprobe.Core.Resolve.Symbols.{ResolvedSymbol, resolve_probe_target}

-- The first mapping that an offset of the file lies in.
unfoldable pub find_region : List MapRegion → (offset : ℕ) → Option MapRegion
unfolding region_contains_offset
find_region [] offset = none
find_region (region ∷ rest) offset =
    if region_contains_offset region offset then some region else find_region rest offset

abbrev pub probe_kind_of : Boundary → HostProbeKind
probe_kind_of Boundary.entry = HostProbeKind.uprobe
probe_kind_of Boundary.return = HostProbeKind.uretprobe

module _ {D : Type 0} where
  unfoldable classify_object :
      ObjectKind → (binary executable : Text) → Result ElfObjectKind (ResolveError D)
  unfolding map_path_matches
  classify_object ObjectKind.executable binary executable = ok ElfObjectKind.executable
  classify_object ObjectKind.dynamic binary executable =
      if map_path_matches executable binary
      then ok ElfObjectKind.position_independent_executable
      else ok ElfObjectKind.shared_library
  classify_object ObjectKind.other binary executable = err (ResolveError.unsupported_elf binary)

  unfoldable pub mapped_regions :
      FileSystem → (pid : ℕ) → (binary : Text) → Result (List MapRegion) (ResolveError D)
  unfolding decimal parse_maps map_path_matches
  mapped_regions fs pid binary =
      let maps_path = text "/proc/" ++ decimal pid ++ text "/maps" in
      do
        maps_text ← map_err (ResolveError.io maps_path) (fs.read_to_string maps_path)
        maps ← parse_maps maps_text maps_path
        let regions = select (λ region. map_path_matches region.path binary) maps in
            (fail_if (is_empty regions) (ResolveError.binary_not_mapped binary pid) >> ok regions)

-- A probe on the file, before it is placed in the process.
pub record Located : Type 0 where
  pub object_kind : ElfObjectKind
  pub build_id : Option Text
  pub symbol : Option ResolvedSymbol
  pub file_offset : ℕ

module _ {D : Type 0} (demangle : Text → Option Text)
    (parse_object : List ℕ → Result ObjectFile Text) where
  unfoldable pub locate :
      FileSystem → ProcessReport → Selector → (binary : Text) → Result Located (ResolveError D)
  unfolding classify_object hex_encode resolve_probe_target
  locate fs report selector binary = do
    bytes ← map_err (ResolveError.io binary) (fs.read binary)
    file ← map_err (ResolveError.invalid_elf binary) (parse_object bytes)
    object_kind ← classify_object file.kind binary report.executable
    build_id ← map_err (ResolveError.invalid_elf binary) file.build_id
    found ← resolve_probe_target demangle file selector.target binary
    ok (record {
      object_kind = object_kind;
      build_id = and_then build_id (λ id. some (hex_encode id));
      symbol = found.0;
      file_offset = found.1;
    })

-- The resolved probe in a mapping.
unfoldable pub place :
    ProcessReport
    → (selector_text : Text) → Boundary
    → (binary : Text) → Located
    → MapRegion
    → ResolvedProbe
unfolding add_u64 from_utf8_lossy
place report selector_text boundary binary located map = record {
  schema_version = SchemaVersion.v2;
  ok = true;
  target = report.target;
  selector = selector_text;
  binary_path = from_utf8_lossy binary;
  build_id = located.build_id;
  object_kind = located.object_kind;
  probe_kind = probe_kind_of boundary;
  symbol = and_then located.symbol (λ s. some s.mangled);
  symbol_demangled = and_then located.symbol (λ s. s.demangled);
  symbol_virtual_address = and_then located.symbol (λ s. some s.address);
  symbol_size = and_then located.symbol (λ s. some s.size);
  file_offset = located.file_offset;
  runtime_address = add_u64 map.start (located.file_offset - map.file_offset);
  mapping = record {
    start_address = map.start;
    end_address = map.end;
    file_offset = map.file_offset;
  };
}

module _ {D : Type 0} (demangle : Text → Option Text)
    (parse_object : List ℕ → Result ObjectFile Text) where
  -- The moments: the two verifications are 0 and 4; the link is followed at 1, the memory map is
  -- read at 2 and the file at 3.
  unfoldable pub run :
      Moments → ProcessReport → (selector_text : Text) → Result ResolvedProbe (ResolveError D)
  unfolding verify_target parse_selector mapped_regions locate find_region place
  run fs report selector_text = do
    map_err ResolveError.inspect (verify_target (fs 0) report.target)
    selector ← parse_selector selector_text
    binary ← map_err (ResolveError.io selector.binary) ((fs 1).canonicalize selector.binary)
    regions ← mapped_regions (fs 2) report.target.pid binary
    located ← locate demangle parse_object (fs 3) report selector binary
    map ←
        ok_or (find_region regions located.file_offset)
          (ResolveError.address_not_mapped located.file_offset binary)
    map_err ResolveError.inspect (verify_target (fs 4) report.target)
    ok (place report selector_text selector.boundary binary located map)
