-- ===== src/Core/Object.antt =====
-- What xprobe/core reads of an ELF file through the `object` crate, and the functions on it that
-- xprobe/core/src/cpu_sampling_analysis.rs and xprobe/core/src/resolve.rs share. `demangle` stands for
-- parsing and printing a name by `cpp_demangle`.
use xprobe.Prelude.{ℕ, Bool, Option, none, some, List, [], ◌∷◌, ltb, if◌then◌else◌, and_then}
use xprobe.Rust.Str.{Text, text, starts_with}
use xprobe.Rust.Words.{add_u64, checked_sub}
use xprobe.Rust.Result.{Result}

pub data ObjectKind : Type 0 where
  executable dynamic other : ObjectKind

pub record Segment : Type 0 where
  pub address : ℕ
  pub file_offset : ℕ
  pub file_size : ℕ

-- `name` is missing when it is not UTF-8.
pub record ObjectSymbol : Type 0 where
  pub is_definition : Bool
  pub is_text : Bool
  pub name : Option Text
  pub address : ℕ
  pub size : ℕ

pub record ObjectFile : Type 0 where
  pub kind : ObjectKind
  pub build_id : Result (Option (List ℕ)) Text
  pub segments : List Segment
  pub dynamic_symbols : List ObjectSymbol
  pub symbols : List ObjectSymbol

unfoldable pub demangle_cpp : (demangle : Text → Option Text) → (name : Text) → Option Text
unfolding starts_with
demangle_cpp demangle name = if starts_with (text "_Z") name then demangle name else none

abbrev pub to_file_offset : (address : ℕ) → Segment → Option ℕ
unfolding checked_sub add_u64
to_file_offset address segment =
    and_then (checked_sub address segment.address) λ delta.
      if ltb delta segment.file_size then some (add_u64 segment.file_offset delta) else none

unfoldable pub virtual_address_to_file_offset : List Segment → (address : ℕ) → Option ℕ
unfolding to_file_offset
virtual_address_to_file_offset [] address = none
virtual_address_to_file_offset (segment ∷ rest) address = elim (to_file_offset address segment) [
  | some offset ↦ some offset
  | none ↦ virtual_address_to_file_offset rest address
]

abbrev pub to_virtual_address : (offset : ℕ) → Segment → Option ℕ
unfolding checked_sub add_u64
to_virtual_address offset segment =
    and_then (checked_sub offset segment.file_offset)
      λ delta. if ltb delta segment.file_size then some (add_u64 segment.address delta) else none

unfoldable pub file_offset_to_virtual_address : List Segment → (offset : ℕ) → Option ℕ
unfolding to_virtual_address
file_offset_to_virtual_address [] offset = none
file_offset_to_virtual_address (segment ∷ rest) offset = elim (to_virtual_address offset segment) [
  | some address ↦ some address
  | none ↦ file_offset_to_virtual_address rest offset
]
