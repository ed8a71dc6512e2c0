-- ===== src/Core/Resolve/Place.antt =====
-- Where `run` of xprobe/core/src/resolve.rs places a probe.
use xprobe.Prelude.{
  ◌++◌, select, is_empty, drop, ◌||◌, All-select, if-cases, if-cases, ◌⊎◌, ℕ, ◌+◌, ◌-◌, ◌<◌, ◌≤◌,
  ◌≡◌, refl, true, inl, inr, Option, some, List, [], ◌∷◌, arith, leb, All, some-injective, subst,
}
use xprobe.Rust.Words.{u64_mod, add_u64}
use xprobe.Rust.Str.{split_once, from_str_radix_16, Text}
use xprobe.Rust.Io.{Moments}
use xprobe.Rust.Result.{
  >>=-ok, fail_if-ok, ok_or-ok, ok-injective, All-traverse, ok_or, ok_or-ok, ok-injective,
  fail_if-ok, >>=-ok, Result, ok, map_err,
}
use xprobe.Protocol.Event.{HostProbeKind}
use xprobe.Protocol.Validate.{ResolvedProbe}
use xprobe.Protocol.Process.{ProcessReport}
use xprobe.Rust.Fmt.{from_str_radix_16-bound}
use xprobe.Rust.Lines.{lines, split_whitespace, join}
use xprobe.Core.Inspect.{verify_target}
use xprobe.Core.Object.{ObjectFile}
use xprobe.Core.CpuAnalysis.Maps.{MapRegion}
use xprobe.Core.Resolve.Probe.{ResolveError, parse_selector}
use xprobe.Core.Resolve.Maps.{
  region_contains_offset, required_field, parse_hex, parse_map_region, parse_maps, map_path_matches,
  is_file_backed,
}
use xprobe.Core.Resolve.{
  decimal, Boundary, FileSystem, text, find_region, probe_kind_of, mapped_regions, locate, place,
  run,
}

-- A probe in its mapping: the runtime address is as far from the mapping's start as the offset is
-- from the mapping's offset, and lies in it.
pub record LiesIn (report : ProcessReport) (text' : Text) (probe : ResolvedProbe) : Type 0 where
  pub of_target : probe.target ≡ report.target
  pub of_selector : probe.selector ≡ text'
  pub above : probe.mapping.file_offset ≤ probe.file_offset
  pub distance :
      probe.runtime_address + probe.mapping.file_offset
      ≡ probe.mapping.start_address + probe.file_offset
  pub inside :
      (probe.mapping.start_address ≤ probe.runtime_address)
      × (probe.runtime_address < probe.mapping.end_address)
  pub userspace :
      (probe.probe_kind ≡ HostProbeKind.uprobe) ⊎ (probe.probe_kind ≡ HostProbeKind.uretprobe)

find_region-contains :
    (regions : List MapRegion) (offset : ℕ) {region : MapRegion}
    → find_region regions offset ≡ some region
    → region_contains_offset region offset ≡ true
unfolding find_region
find_region-contains [] offset h = cc
find_region-contains (r ∷ rest) offset {region} h =
    elim (if-cases (region_contains_offset r offset) h) [
      | inl (e, same) ↦
          subst (λ x. region_contains_offset x offset ≡ true) {x = r} (some-injective same) e
      | inr (e, later) ↦ find_region-contains rest offset {region = region} later
    ]

-- A mapping with its ends in order, both u64.
record IsRegion (region : MapRegion) : Type 0 where
  ends : region.end < u64_mod
  offset : region.file_offset < u64_mod

parse_hex-bound :
    (D : Type 0) (value path reason : Text) {n : ℕ}
    → parse_hex {D = D} value path reason ≡ ok n
    → n < u64_mod
unfolding parse_hex
parse_hex-bound D value path reason h =
    from_str_radix_16-bound value
      (ok_or-ok (from_str_radix_16 value) (ResolveError.invalid_maps path reason) h)

module _ (D : Type 0) where
  parse_map_region-IsRegion :
      (line path : Text) (region : MapRegion)
      → parse_map_region {D = D} line path ≡ ok region
      → IsRegion region
  unfolding parse_map_region
  parse_map_region-IsRegion line path region h =
      let fields = split_whitespace line in
      let (range, _, h1) = >>=-ok (required_field fields 0 path (text "address range")) _ h in
      let (permissions, _, h2) = >>=-ok (required_field fields 1 path (text "permissions")) _ h1 in
      let (offset, _, h3) = >>=-ok (required_field fields 2 path (text "file offset")) _ h2 in
      let (device, _, h4) = >>=-ok (required_field fields 3 path (text "device")) _ h3 in
      let (inode, _, h5) = >>=-ok (required_field fields 4 path (text "inode")) _ h4 in
      let (ends, _, h6) =
        >>=-ok
          (ok_or (split_once (text "-") range)
            (ResolveError.invalid_maps path (text "invalid address range")))
          _ h5 in
      let (start, _, h7) = >>=-ok (parse_hex ends.0 path (text "invalid mapping start")) _ h6 in
      let (end, is_end, h8) = >>=-ok (parse_hex ends.1 path (text "invalid mapping end")) _ h7 in
      let (at, is_at, h9) =
        >>=-ok (parse_hex offset path (text "invalid mapping file offset")) _ h8 in
      let (_, is) =
        fail_if-ok (leb end start || is_empty (join (text " ") (drop 5 fields))) _ _ h9 in
      subst IsRegion (ok-injective is) (record {
        ends = parse_hex-bound D ends.1 path (text "invalid mapping end") is_end;
        offset = parse_hex-bound D offset path (text "invalid mapping file offset") is_at;
      })

  parse_maps-IsRegion :
      (contents path : Text) (regions : List MapRegion)
      → parse_maps {D = D} contents path ≡ ok regions
      → All IsRegion regions
  unfolding parse_maps
  parse_maps-IsRegion contents path regions h =
      All-traverse IsRegion (λ line. parse_map_region {D = D} line path)
        (select is_file_backed (lines contents))
        (λ line region. parse_map_region-IsRegion line path region) h

  mapped_regions-IsRegion :
      (fs : FileSystem) (pid : ℕ) (binary : Text) (regions : List MapRegion)
      → mapped_regions {D = D} fs pid binary ≡ ok regions
      → All IsRegion regions
  unfolding mapped_regions
  mapped_regions-IsRegion fs pid binary regions h =
      let path = text "/proc/" ++ decimal pid ++ text "/maps" in
      let (contents, _, h1) =
        >>=-ok (map_err (ResolveError.io path) (fs.read_to_string path)) _ h in
      let (maps, parsed, h2) = >>=-ok (parse_maps contents path) _ h1 in
      let kept = select (λ region. map_path_matches region.path binary) maps in
      let (_, same) =
        fail_if-ok (is_empty kept) (ResolveError.binary_not_mapped binary pid) (ok kept) h2 in
      subst (All IsRegion) (ok-injective same) (
        All-select IsRegion (λ region. map_path_matches region.path binary) maps
          (parse_maps-IsRegion contents path maps parsed))

find_region-All :
    (regions : List MapRegion) (offset : ℕ) {region : MapRegion}
    → All IsRegion regions
    → find_region regions offset ≡ some region
    → IsRegion region
unfolding find_region
find_region-All [] offset a h = cc
find_region-All (r ∷ rest) offset {region} a h =
    elim (if-cases (region_contains_offset r offset) h) [
      | inl (e, same) ↦ subst IsRegion {x = r} (some-injective same) a.0
      | inr (e, later) ↦ find_region-All rest offset {region = region} a.1 later
    ]

-- A mapping that contains an offset places it within itself.
placed :
    (region : MapRegion) (offset : ℕ)
    → IsRegion region
    → region_contains_offset region offset ≡ true
    → (region.file_offset ≤ offset)
      × (add_u64 region.start (offset - region.file_offset) + region.file_offset
          ≡ region.start + offset)
      × (region.start ≤ add_u64 region.start (offset - region.file_offset))
      × (add_u64 region.start (offset - region.file_offset) < region.end)
unfolding region_contains_offset add_u64
placed region offset r h = ground (arith, r.ends)

probe_kind_of-userspace :
    (b : Boundary)
    → (probe_kind_of b ≡ HostProbeKind.uprobe) ⊎ (probe_kind_of b ≡ HostProbeKind.uretprobe)
probe_kind_of-userspace Boundary.entry = inl refl
probe_kind_of-userspace Boundary.return = inr refl

module _ {D : Type 0} (demangle : Text → Option Text)
    (parse_object : List ℕ → Result ObjectFile Text) where
  -- Whatever the files say, a probe that `run` of the resolution returns is of the reported
  -- target and of the given selector, is a userspace probe, and lies in its mapping: its runtime
  -- address is as far from the start of the mapping as its file offset is from the offset of the
  -- mapping, not before the start and before the end.
  pub run-LiesIn :
      (fs : Moments) (report : ProcessReport) (selector_text : Text) {probe : ResolvedProbe}
      → run {D = D} demangle parse_object fs report selector_text ≡ ok probe
      → LiesIn report selector_text probe
  unfolding run place
  run-LiesIn fs report selector_text {probe} h =
      let (_, _, h1) =
        >>=-ok (map_err ResolveError.inspect (verify_target {D = D} (fs 0) report.target)) _ h in
      let (selector, _, h2) = >>=-ok (parse_selector selector_text) _ h1 in
      let (binary, _, h3) =
        >>=-ok (map_err (ResolveError.io selector.binary) ((fs 1).canonicalize selector.binary)) _
          h2 in
      let (regions, mapped, h4) = >>=-ok (mapped_regions (fs 2) report.target.pid binary) _ h3 in
      let (located, _, h5) =
        >>=-ok (locate demangle parse_object (fs 3) report selector binary) _ h4 in
      let (map, found, h6) =
        >>=-ok
          (ok_or (find_region regions located.file_offset)
            (ResolveError.address_not_mapped located.file_offset binary))
          _ h5 in
      let (_, _, h7) =
        >>=-ok (map_err ResolveError.inspect (verify_target {D = D} (fs 4) report.target)) _ h6 in
      let finds =
        ok_or-ok (find_region regions located.file_offset)
          (ResolveError.address_not_mapped located.file_offset binary) found in
      let in' =
        placed map located.file_offset
          (find_region-All regions located.file_offset
            (mapped_regions-IsRegion D (fs 2) report.target.pid binary regions mapped) finds)
          (find_region-contains regions located.file_offset finds) in
      subst (LiesIn report selector_text) (ok-injective h7) (record {
        of_target = refl;
        of_selector = refl;
        above = in'.0;
        distance = in'.1;
        inside = (in'.2, in'.3);
        userspace = probe_kind_of-userspace selector.boundary;
      })
