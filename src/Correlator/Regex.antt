-- ===== src/Correlator/Regex.antt =====
-- `is_bounded_name_regex`, `regex_literal` and `valid_linux_component` of
-- xprobe/correlator/src/lib.rs, over the bytes of a pattern: every character that the code tests is
-- ASCII, and the bytes of any other character pass through `regex_literal` unchanged.
use xprobe.Prelude.{
  ℕ, Bool, not, ◌&&◌, ◌||◌, Option, none, some, List, [], ◌∷◌, ltb, ◌==◌, if◌then◌else◌,
  is_some_and, and_then, length, any, all, is_empty,
}
use mathlib.Core.Option
use xprobe.Rust.Str.{Text, text, strip_prefix, strip_suffix, is_ascii_alphanumeric}

-- `".+*?()|[]{}^$".contains(character)`.
unfoldable pub is_special : ℕ → Bool
is_special c = any (λ d. d == c) (text ".+*?()|[]{}^$")

-- After a backslash the next character is taken as it is, unless it is a letter or a digit.
unfoldable pub regex_literal : Text → Option Text
unfolding is_special is_ascii_alphanumeric
regex_literal [] = some []
regex_literal (c ∷ []) = if c == b'\\' then none else if is_special c then none else some (c ∷ [])
regex_literal (c ∷ d ∷ s) =
    let escaped = if is_ascii_alphanumeric d then none else Option.map (◌∷◌ d) (regex_literal s) in
    let plain = Option.map (◌∷◌ c) (regex_literal (d ∷ s)) in
    if c == b'\\' then escaped else if is_special c then none else plain

abbrev pub candidates : List (Text × Text)
candidates =
    (text "^", text "$")
    ∷ (text "^", text ".*")
    ∷ (text ".*", text "$")
    ∷ (text ".*", text ".*")
    ∷ (text "^", text "")
    ∷ (text "", text "$")
    ∷ (text ".*", text "")
    ∷ (text "", text "")
    ∷ []

-- The literal between a prefix and a suffix.
unfoldable bounded_literal : Text → Text × Text → Option Text
unfolding strip_prefix strip_suffix regex_literal
bounded_literal pattern (front, back) =
    and_then (strip_prefix front pattern) λ value. and_then (strip_suffix back value) regex_literal

unfoldable pub is_bounded_name_regex : Text → Bool
unfolding bounded_literal
is_bounded_name_regex pattern =
    any
      (λ candidate.
        is_some_and (bounded_literal pattern candidate)
          λ literal. not (is_empty literal) && ltb (length literal) 128)
      candidates

unfoldable pub valid_linux_component : Text → Bool
unfolding is_ascii_alphanumeric
valid_linux_component value =
    not (is_empty value) && all (λ byte. is_ascii_alphanumeric byte || byte == b'_') value
