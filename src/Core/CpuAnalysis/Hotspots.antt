-- ===== src/Core/CpuAnalysis/Hotspots.antt =====
-- The hotspots of the retained stacks and their selectors: `aggregate_hotspots` and `selector_hints`
-- of xprobe/core/src/cpu_sampling_analysis.rs.
use xprobe.Prelude.{
  not, ℕ, Bool, true, false, Option, none, some, List, [], ◌∷◌, ◌++◌, map, unwrap_or, take, compare,
  and_then, if◌then◌else◌,
}
use xprobe.Rust.Str.{Text, text}
use xprobe.Rust.Words.{saturating_add, checked_sub}
use xprobe.Rust.Ord.{nat_ord, then_cmp}
use xprobe.Rust.BTreeMap.{BTreeMap, get, insert}
use xprobe.Rust.Sort.{sort_by}
use xprobe.Rust.Fmt.{lower_hex}
use xprobe.Correlator.Statistics.{Float}
use xprobe.Protocol.CpuSampling.{CpuFrameLanguage, CpuStackFrame, CpuHotspot}
use xprobe.Core.Report.{ratio}
use xprobe.Core.CpuAnalysis.Stacks.{Stack, is_le}
use xprobe.Core.CpuAnalysis.Symbols.{Symbolizer, symbolize}

-- The inclusive and the exclusive samples of each address.
abbrev pub Counts : Type 0
Counts = BTreeMap ℕ (ℕ × ℕ)

-- `entry(address).or_default()`, one part of which grows.
unfoldable add_inclusive : (samples address : ℕ) → Counts → Counts
unfolding get insert saturating_add
add_inclusive samples address counts =
    let (inclusive, exclusive) = unwrap_or (get address counts) (0, 0) in
    insert address (saturating_add inclusive samples, exclusive) counts

unfoldable add_exclusive : (samples address : ℕ) → Counts → Counts
unfolding get insert saturating_add
add_exclusive samples address counts =
    let (inclusive, exclusive) = unwrap_or (get address counts) (0, 0) in
    insert address (inclusive, saturating_add exclusive samples) counts

-- The loop over a stack: an address that has been seen is passed over.
unfoldable add_stack : (samples : ℕ) → Stack → (seen : BTreeMap ℕ (Unit {0})) → Counts → Counts
unfolding get insert add_inclusive
add_stack samples [] seen counts = counts
add_stack samples (address ∷ stack) seen counts = elim (get address seen) [
  | some _ ↦ add_stack samples stack seen counts
  | none ↦ add_stack samples stack (insert address tt seen) (add_inclusive samples address counts)
]

-- `stack.first()`.
unfoldable add_first : (samples : ℕ) → Stack → Counts → Counts
unfolding add_exclusive
add_first samples [] counts = counts
add_first samples (address ∷ stack) counts = add_exclusive samples address counts

unfoldable add_groups : List (Stack × ℕ) → Counts → Counts
unfolding add_first add_stack
add_groups [] counts = counts
add_groups ((stack, samples) ∷ groups) counts =
    add_groups groups (add_stack samples stack [] (add_first samples stack counts))

-- The hexadecimal start of a symbol as a probe.
unfoldable pub probe_at : (path : Text) → (symbol_start : ℕ) → (boundary : Text) → Text
unfolding lower_hex
probe_at path symbol_start boundary =
    text "uprobe:" ++ path ++ text ":+0x" ++ lower_hex symbol_start ++ text ":" ++ boundary

-- `frame.language == CpuFrameLanguage::Native`.
abbrev is_native : CpuFrameLanguage → Bool
is_native CpuFrameLanguage.native = true
is_native _ = false

-- The path and the start of the symbol, when both are known.
unfoldable boundary_of : CpuStackFrame → Option (Text × ℕ)
unfolding checked_sub
boundary_of frame =
    if not (is_native frame.language)
    then none
    else and_then frame.module_path λ path. and_then frame.file_offset λ offset.
      and_then frame.symbol_offset λ symbol_offset.
        and_then (checked_sub offset symbol_offset) λ symbol_start. some (path, symbol_start)

unfoldable selector_hints : CpuStackFrame → Option Text × Option Text
unfolding boundary_of probe_at
selector_hints frame = elim (boundary_of frame) [
  | none ↦ (none, none)
  | some (path, symbol_start) ↦ (
    some (probe_at path symbol_start (text "entry")),
    some (probe_at path symbol_start (text "return")),
  )
]

module _ (f : Float) where
  open f use {F}

  unfoldable hotspot_of :
      {V : Type 0} → Symbolizer V → (denominator : ℕ) → ℕ × (ℕ × ℕ) → CpuHotspot F
  unfolding symbolize selector_hints ratio
  hotspot_of symbolizer denominator (address, (inclusive, exclusive)) =
      let frame = symbolize symbolizer address in
      let (entry_selector_hint, return_selector_hint) = selector_hints frame in
      record {
        frame = frame;
        inclusive_samples = inclusive;
        exclusive_samples = exclusive;
        inclusive_proportion = ratio f inclusive denominator;
        exclusive_proportion = ratio f exclusive denominator;
        entry_selector_hint = entry_selector_hint;
        return_selector_hint = return_selector_hint;
      }

  abbrev pub hotter : CpuHotspot F → CpuHotspot F → Bool
  hotter left right = is_le (
      then_cmp
        (then_cmp (compare right.inclusive_samples left.inclusive_samples)
          (compare right.exclusive_samples left.exclusive_samples))
        (compare left.frame.address right.frame.address))

  unfoldable pub aggregate_hotspots :
      {V : Type 0}
      → List (Stack × ℕ)
      → Symbolizer V
      → (denominator max_hotspots : ℕ) → List (CpuHotspot F)
  unfolding add_groups hotspot_of sort_by
  aggregate_hotspots groups symbolizer denominator max_hotspots =
      take max_hotspots
        (sort_by hotter (map (hotspot_of symbolizer denominator) (add_groups groups [])))
