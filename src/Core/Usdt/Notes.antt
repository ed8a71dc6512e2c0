-- ===== src/Core/Usdt/Notes.antt =====
-- The bytes of `.note.stapsdt`: `parse_stapsdt_notes` of xprobe/core/src/usdt.rs. The loop runs on
-- fuel, and `none` is a run out of it.
use xprobe.Prelude.{
  ℕ, zero, suc, ◌+◌, ◌-◌, ◌*◌, ◌/◌, Bool, not, ◌&&◌, leb, ltb, ◌==◌, if◌then◌else◌, Option, none,
  some, List, [], ◌∷◌, ◌++◌, length, take, drop, and_then,
}
use xprobe.Rust.Str.{Text, text, text_eq}
use xprobe.Rust.Words.{checked_add, add_u64}
use xprobe.Rust.Ord.{nat_ord, list_ord, pair_ord}
use xprobe.Rust.BTreeMap.{BTreeMap, insert}
use xprobe.Rust.Result.{Result, ok, err, ◌>>=◌, ◌>>◌, ok_or, fail_if}
use xprobe.Rust.Lines.{valid_utf8}

-- `BTreeSet<(String, String)>`: provider and name.
abbrev pub Names : Type 0
Names = BTreeMap (Text × Text) (Unit {0})

-- `data.get(from..to)`.
unfoldable pub slice : List ℕ → (from to : ℕ) → Option (List ℕ)
slice data' from to =
    if leb from to && leb to (length data') then some (take (to - from) (drop from data')) else none

abbrev pub le_word : List ℕ → ℕ
le_word [] = 0
le_word (b ∷ bytes) = b + 256 * le_word bytes

abbrev pub be_word : ℕ → List ℕ → ℕ
be_word n [] = n
be_word n (b ∷ bytes) = be_word (n * 256 + b) bytes

unfoldable pub read_u32 : List ℕ → (offset : ℕ) → (little_endian : Bool) → Result ℕ Text
unfolding checked_add slice
read_u32 data' offset little_endian = do
  end ← ok_or (checked_add offset 4) (text "note integer offset overflowed")
  bytes ← ok_or (slice data' offset end) (text "note header exceeds section bounds")
  ok (if little_endian then le_word bytes else be_word 0 bytes)

-- `(value + 3) & !3`.
unfoldable pub align_four : (value : ℕ) → Result ℕ Text
unfolding checked_add
align_four value =
    ok_or (checked_add value 3) (text "note alignment overflowed") >>= λ raised. ok (raised / 4 * 4)

-- The bytes before the first NUL and those after it.
unfoldable split_nul : List ℕ → Option (List ℕ × List ℕ)
split_nul [] = none
split_nul (b ∷ bytes) =
    let rest = split_nul bytes in
    if b == 0
    then some ([], bytes)
    else and_then rest (λ (r : List ℕ × List ℕ). some (b ∷ r.0, r.1))

module _ (utf8_error : List ℕ → Text) where
  unfoldable take_c_string : List ℕ → (field : Text) → Result (Text × List ℕ) Text
  unfolding split_nul valid_utf8
  take_c_string data' field = do
    parts ← ok_or (split_nul data') (text "descriptor " ++ field ++ text " is not NUL terminated")
    fail_if (not (valid_utf8 parts.0))
        (text "descriptor " ++ field ++ text " is not UTF-8: " ++ utf8_error parts.0)
    ok parts

  unfoldable parse_stapsdt_descriptor : List ℕ → (is_64 : Bool) → Result (Text × Text) Text
  unfolding slice take_c_string
  parse_stapsdt_descriptor descriptor is_64 =
      let address_bytes = if is_64 then 24 else 12 in
      do
        strings ←
            ok_or (slice descriptor address_bytes (length descriptor))
              (text "descriptor does not contain three addresses")
        provider ← take_c_string strings (text "provider")
        name ← take_c_string provider.1 (text "name")
        ok (provider.0, name.0)

-- A note: its owner, its descriptor and the offset of the next one.
pub record Note : Type 0 where
  pub owner : List ℕ
  pub descriptor : List ℕ
  pub next : ℕ

unfoldable pub read_note : List ℕ → (offset : ℕ) → (little_endian : Bool) → Result Note Text
unfolding read_u32 checked_add add_u64 slice align_four
read_note data' offset little_endian = do
  namesz ← read_u32 data' offset little_endian
  descsz ← read_u32 data' (add_u64 offset 4) little_endian
  name_start ← ok_or (checked_add offset 12) (text "note header offset overflowed")
  name_end ← ok_or (checked_add name_start namesz) (text "note owner length overflowed")
  owner ← ok_or (slice data' name_start name_end) (text "note owner exceeds section bounds")
  desc_start ← align_four name_end
  desc_end ← ok_or (checked_add desc_start descsz) (text "note descriptor length overflowed")
  descriptor ←
      ok_or (slice data' desc_start desc_end) (text "note descriptor exceeds section bounds")
  next ← align_four desc_end
  ok (record { owner = owner; descriptor = descriptor; next = next })

abbrev stapsdt_owner : List ℕ
stapsdt_owner = text "stapsdt" ++ 0 ∷ []

module _ (utf8_error : List ℕ → Text) where
  -- The names with those of a note, if it is a probe's.
  unfoldable pub add_note : Note → (is_64 : Bool) → Names → Result Names Text
  unfolding text_eq parse_stapsdt_descriptor insert
  add_note note is_64 probes =
      if text_eq note.owner stapsdt_owner
      then (parse_stapsdt_descriptor utf8_error note.descriptor is_64 >>= λ probe.
          ok (insert probe tt probes))
      else ok probes

  unfoldable pub notes_loop :
      (fuel : ℕ)
      → List ℕ
      → (offset : ℕ) → (little_endian is_64 : Bool) → Names
      → Option (Result Names Text)
  unfolding read_note add_note
  notes_loop zero data' offset little_endian is_64 probes = none
  notes_loop (suc fuel) data' offset little_endian is_64 probes =
      if not (ltb offset (length data'))
      then some (ok probes)
      else elim (read_note data' offset little_endian) [
        | err error ↦ some (err error)
        | ok note ↦ elim (add_note note is_64 probes) [
          | err error ↦ some (err error)
          | ok found ↦ notes_loop fuel data' note.next little_endian is_64 found
        ]
      ]

  -- Each note takes at least twelve bytes.
  unfoldable pub parse_stapsdt_notes :
      List ℕ → (little_endian is_64 : Bool) → Option (Result Names Text)
  unfolding notes_loop
  parse_stapsdt_notes data' little_endian is_64 =
      notes_loop (length data' / 12 + 2) data' 0 little_endian is_64 []
