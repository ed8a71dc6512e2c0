-- ===== src/Core/Resolve/Maps.antt =====
-- The file-backed mappings of `/proc/<pid>/maps`: `parse_maps`, `map_path_matches` and
-- `region_contains_offset` of xprobe/core/src/resolve.rs. A path is compared by its components.
use xprobe.Prelude.{
  ℕ, ◌-◌, Bool, true, false, ◌&&◌, ◌||◌, leb, ltb, List, [], ◌∷◌, ◌++◌, select, drop, is_empty,
  is_some_and, get_elem?, unwrap_or,
}
use xprobe.Rust.Str.{Text, text, text_eq, starts_with, strip_suffix, split_once, from_str_radix_16}
use xprobe.Rust.Result.{Result, ok, ◌>>=◌, ◌>>◌, ok_or, fail_if, traverse}
use xprobe.Rust.Lines.{lines, split_whitespace, join}
use xprobe.Core.CpuAnalysis.Maps.{MapRegion}
use xprobe.Core.CpuAnalysis.Symbols.{Components, components}
use xprobe.Core.Resolve.Probe.{ResolveError}

-- `line.split_whitespace().nth(5).is_some_and(...)`.
unfoldable pub is_file_backed : (line : Text) → Bool
unfolding split_whitespace starts_with
is_file_backed line = is_some_and (get_elem? (split_whitespace line) 5) (starts_with (text "/"))

module _ {D : Type 0} where
  abbrev pub required_field :
      (fields : List Text) → (place : ℕ) → (path name : Text) → Result Text (ResolveError D)
  required_field fields place path name =
      ok_or (get_elem? fields place) (ResolveError.invalid_maps path (text "missing " ++ name))

  unfoldable pub parse_hex : (value path reason : Text) → Result ℕ (ResolveError D)
  unfolding from_str_radix_16
  parse_hex value path reason =
      ok_or (from_str_radix_16 value) (ResolveError.invalid_maps path reason)

  unfoldable pub parse_map_region : (line path : Text) → Result MapRegion (ResolveError D)
  unfolding split_whitespace split_once join parse_hex
  parse_map_region line path =
      let fields = split_whitespace line in
      let mapped_path = join (text " ") (drop 5 fields) in
      do
        range ← required_field fields 0 path (text "address range")
        permissions ← required_field fields 1 path (text "permissions")
        offset ← required_field fields 2 path (text "file offset")
        device ← required_field fields 3 path (text "device")
        inode ← required_field fields 4 path (text "inode")
        ends ←
            ok_or (split_once (text "-") range)
              (ResolveError.invalid_maps path (text "invalid address range"))
        start ← parse_hex ends.0 path (text "invalid mapping start")
        end ← parse_hex ends.1 path (text "invalid mapping end")
        file_offset ← parse_hex offset path (text "invalid mapping file offset")
        fail_if (leb end start || is_empty mapped_path)
            (ResolveError.invalid_maps path (text "invalid file-backed mapping"))
        ok (record { start = start; end = end; file_offset = file_offset; path = mapped_path })

  unfoldable pub parse_maps : (contents path : Text) → Result (List MapRegion) (ResolveError D)
  unfolding lines traverse is_file_backed parse_map_region
  parse_maps contents path =
      traverse (λ line. parse_map_region line path) (select is_file_backed (lines contents))

unfoldable same_components : Components → Components → Bool
unfolding text_eq
same_components [] [] = true
same_components [] (b ∷ bs) = false
same_components (a ∷ as') [] = false
same_components (a ∷ as') (b ∷ bs) = text_eq a b && same_components as' bs

unfoldable pub map_path_matches : (mapped binary : Text) → Bool
unfolding strip_suffix components same_components
map_path_matches mapped binary =
    same_components (components (unwrap_or (strip_suffix (text " (deleted)") mapped) mapped))
      (components binary)

unfoldable pub region_contains_offset : MapRegion → (offset : ℕ) → Bool
region_contains_offset region offset =
    leb region.file_offset offset && ltb (offset - region.file_offset) (region.end - region.start)
