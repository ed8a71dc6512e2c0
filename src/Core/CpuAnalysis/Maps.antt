-- ===== src/Core/CpuAnalysis/Maps.antt =====
-- The executable mappings of `/proc/<pid>/maps`: `parse_executable_maps` of
-- xprobe/core/src/cpu_sampling_analysis.rs.
use xprobe.Prelude.{
  ℕ, not, ◌||◌, leb, ◌==◌, if◌then◌else◌, Option, none, some, List, [], ◌∷◌, ◌++◌, any, is_empty,
  drop, get_elem?, unwrap_or,
}
use xprobe.Rust.Str.{Text, text, starts_with, strip_suffix, split_once, from_str_radix_16}
use xprobe.Rust.Result.{Result, ok, ◌>>=◌, ◌>>◌, ok_or, fail_if}
use xprobe.Rust.Lines.{lines, split_whitespace, join}
use xprobe.Core.CpuAnalysis.Errors.{CpuAnalysisError}

pub record MapRegion : Type 0 where
  pub start : ℕ
  pub end : ℕ
  pub file_offset : ℕ
  pub path : Text

module _ {D : Type 0} where
  abbrev required_field :
      (fields : List Text) → (place : ℕ) → (path name : Text) → Result Text (CpuAnalysisError D)
  required_field fields place path name =
      ok_or (get_elem? fields place) (CpuAnalysisError.invalid_maps path (text "missing " ++ name))

  unfoldable pub parse_hex : (value path reason : Text) → Result ℕ (CpuAnalysisError D)
  unfolding from_str_radix_16
  parse_hex value path reason =
      ok_or (from_str_radix_16 value) (CpuAnalysisError.invalid_maps path reason)

  -- A mapping from its text, once it is known to be executable.
  unfoldable region_of :
      (range offset mapped_path path : Text) → Result MapRegion (CpuAnalysisError D)
  unfolding strip_suffix split_once parse_hex
  region_of range offset mapped_path path = do
    ends ←
        ok_or (split_once (text "-") range)
          (CpuAnalysisError.invalid_maps path (text "invalid address range"))
    start ← parse_hex ends.0 path (text "invalid mapping start")
    end ← parse_hex ends.1 path (text "invalid mapping end")
    file_offset ← parse_hex offset path (text "invalid mapping file offset")
    fail_if (leb end start)
        (CpuAnalysisError.invalid_maps path (text "mapping start must precede its end"))
    ok (record {
      start = start;
      end = end;
      file_offset = file_offset;
      path = unwrap_or (strip_suffix (text " (deleted)") mapped_path) mapped_path;
    })

  unfoldable parse_map_line : (line path : Text) → Result (Option MapRegion) (CpuAnalysisError D)
  unfolding split_whitespace region_of starts_with join
  parse_map_line line path =
      let fields = split_whitespace line in
      let mapped_path = join (text " ") (drop 5 fields) in
      do
        range ← required_field fields 0 path (text "address range")
        permissions ← required_field fields 1 path (text "permissions")
        offset ← required_field fields 2 path (text "file offset")
        device ← required_field fields 3 path (text "device")
        inode ← required_field fields 4 path (text "inode")
        let skipped =
              is_empty mapped_path
              || not (any (λ c. c == b'x') permissions)
              || not (starts_with (text "/") mapped_path) in
            if skipped
            then ok none
            else (region_of range offset mapped_path path >>= λ region. ok (some region))

  -- `filter_map(...).collect::<Result<Vec<_>, _>>()`.
  unfoldable regions_of : (path : Text) → List Text → Result (List MapRegion) (CpuAnalysisError D)
  unfolding parse_map_line
  regions_of path [] = ok []
  regions_of path (line ∷ rest) = parse_map_line line path >>= λ found.
      regions_of path rest >>= λ regions.
      ok (elim found [ none ↦ regions | some region ↦ region ∷ regions ])

  unfoldable pub parse_executable_maps :
      (contents path : Text) → Result (List MapRegion) (CpuAnalysisError D)
  unfolding lines regions_of
  parse_executable_maps contents path = regions_of path (lines contents)
