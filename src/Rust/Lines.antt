-- ===== src/Rust/Lines.antt =====
-- The methods of `str` and `slice` that read files of text: `lines`, `split_whitespace`, `trim_start`,
-- `rfind` and `contains`. A text is its UTF-8 bytes, so a white-space character may be several.
pub mod Words
pub mod Lossy
use xprobe.Prelude.{
  ℕ, zero, suc, ◌+◌, ◌≡◌, refl, Bool, true, false, not, ◌&&◌, ◌||◌, Option, none, some, List, [],
  ◌∷◌, ◌++◌, arith, leb, ltb, ◌==◌, if◌then◌else◌, is_empty, select, is_some, any,
}
use xprobe.Rust.Str.{Text, text, text_eq, strip_suffix, onto_first, split, starts_with}

-- The white space of one, two and three bytes.
abbrev white_one : ℕ → Bool
white_one c = leb 9 c && leb c 13 || c == 32

abbrev white_two : ℕ → ℕ → Bool
white_two c d = c == 0xC2 && (d == 0x85 || d == 0xA0)

abbrev white_three : ℕ → ℕ → ℕ → Bool
white_three c d e =
    c == 0xE1 && d == 0x9A && e == 0x80
    || c == 0xE2 && d == 0x80 && (leb 0x80 e && leb e 0x8A || e == 0xA8 || e == 0xA9 || e == 0xAF)
    || c == 0xE2 && d == 0x81 && e == 0x9F
    || c == 0xE3 && d == 0x80 && e == 0x80

-- How many bytes the white-space character at the head takes; 0 without one.
unfoldable pub white_len : Text → ℕ
white_len [] = 0
white_len (c ∷ []) = if white_one c then 1 else 0
white_len (c ∷ d ∷ []) = if white_one c then 1 else if white_two c d then 2 else 0
white_len (c ∷ d ∷ e ∷ s) =
    if white_one c then 1 else if white_two c d then 2 else if white_three c d e then 3 else 0

-- The pieces between white-space characters; `skip` bytes of the last one are still to pass.
unfoldable pub split_white : ℕ → Text → List Text
unfolding white_len
split_white skip [] = [] ∷ []
split_white (suc skip) (c ∷ s) = split_white skip s
split_white zero (c ∷ s) = elim (white_len (c ∷ s)) [
  | zero ↦ onto_first c (split_white zero s)
  | suc more ↦ [] ∷ split_white more s
]

unfoldable pub split_whitespace : Text → List Text
unfolding split_white
split_whitespace s = select (λ piece. not (is_empty piece)) (split_white 0 s)

unfoldable pub trim_start_at : ℕ → Text → Text
unfolding white_len
trim_start_at skip [] = []
trim_start_at (suc skip) (c ∷ s) = trim_start_at skip s
trim_start_at zero (c ∷ s) = elim (white_len (c ∷ s)) [
  | zero ↦ c ∷ s
  | suc more ↦ trim_start_at more s
]

-- `str::trim_end` and `str::trim`.
unfoldable trim_end : Text → Text
unfolding trim_start_at
trim_end [] = []
trim_end (c ∷ s) =
    let rest = trim_end s in if is_empty (trim_start_at 0 (c ∷ s)) then [] else c ∷ rest

unfoldable pub trim : Text → Text
unfolding trim_start_at trim_end
trim s = trim_end (trim_start_at 0 s)

-- A line without the carriage return before its end.
abbrev without_cr : Text → Text
unfolding strip_suffix
without_cr line = elim (strip_suffix (13 ∷ []) line) [ none ↦ line | some front ↦ front ]

-- Only a line that a line feed ends loses a carriage return, and an empty last piece is no line.
unfoldable pub ended_lines : List Text → List Text
unfolding without_cr
ended_lines [] = []
ended_lines (last ∷ []) = if is_empty last then [] else last ∷ []
ended_lines (line ∷ next ∷ more) = without_cr line ∷ ended_lines (next ∷ more)

unfoldable pub lines : Text → List Text
unfolding split ended_lines
lines s = ended_lines (split 10 s)

-- What follows the last occurrence of a byte.
unfoldable pub after_last : ℕ → Text → Option Text
after_last sep [] = none
after_last sep (c ∷ s) = elim (after_last sep s) [
  | some tail ↦ some tail
  | none ↦ if c == sep then some s else none
]

-- `str::contains` a text that is not empty.
unfoldable pub contains_text : Text → Text → Bool
unfolding starts_with
contains_text p [] = false
contains_text p (c ∷ s) =
    let rest = contains_text p s in if starts_with p (c ∷ s) then true else rest

-- What a first byte of UTF-8 asks for: how many bytes follow, and the range of the next one.
abbrev pub utf8_lead : ℕ → Option (ℕ × ℕ × ℕ)
utf8_lead c =
    if ltb c 0x80
    then some (0, 0x80, 0xBF)
    else if leb 0xC2 c && leb c 0xDF
    then some (1, 0x80, 0xBF)
    else if c == 0xE0
    then some (2, 0xA0, 0xBF)
    else if c == 0xED
    then some (2, 0x80, 0x9F)
    else if leb 0xE1 c && leb c 0xEF
    then some (2, 0x80, 0xBF)
    else if c == 0xF0
    then some (3, 0x90, 0xBF)
    else if leb 0xF1 c && leb c 0xF3
    then some (3, 0x80, 0xBF)
    else if c == 0xF4
    then some (3, 0x80, 0x8F)
    else none

unfoldable pub valid_from : (need lo hi : ℕ) → List ℕ → Bool
valid_from zero lo hi [] = true
valid_from (suc need) lo hi [] = false
valid_from (suc need) lo hi (c ∷ s) = leb lo c && leb c hi && valid_from need 0x80 0xBF s
valid_from zero lo hi (c ∷ s) = elim (utf8_lead c) [
  | none ↦ false
  | some (need, low, high) ↦ valid_from need low high s
]

-- `str::from_utf8` succeeds.
unfoldable pub valid_utf8 : List ℕ → Bool
unfolding valid_from
valid_utf8 bytes = valid_from 0 0x80 0xBF bytes

-- `pieces.join(separator)`.
unfoldable pub join : Text → List Text → Text
join sep [] = []
join sep (p ∷ []) = p
join sep (p ∷ q ∷ ps) = p ++ sep ++ join sep (q ∷ ps)

fields_of_a_line :
    split_whitespace (text "7f00-7f10 r-xp  /tmp/a b")
    ≡ text "7f00-7f10" ∷ text "r-xp" ∷ text "/tmp/a" ∷ text "b" ∷ []
unfolding split_whitespace split_white white_len
fields_of_a_line = refl

lines_of_a_text : lines (97 ∷ 13 ∷ 10 ∷ 98 ∷ 13 ∷ []) ≡ (97 ∷ []) ∷ (98 ∷ 13 ∷ []) ∷ []
unfolding lines ended_lines split strip_suffix text_eq
lines_of_a_text = refl
