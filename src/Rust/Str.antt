-- ===== src/Rust/Str.antt =====
-- `str` as its UTF-8 bytes, and the methods of `str` that the program calls.
use Prim.Native.Char.{code}
use Prim.Native.String.{String}
use xprobe.Prelude.{
  ℕ, ◌+◌, ◌-◌, ◌*◌, ◌≡◌, refl, ◌↔◌, Bool, true, false, ◌&&◌, ◌||◌, Option, none, some, List, [],
  ◌∷◌, leb, ltb, ◌==◌, arith, if◌then◌else◌, is_some,
}
use xprobe.Rust.Words.{u64_mod}

abbrev pub Text : Type 0
Text = List ℕ

-- A literal, whose characters are ASCII.
abbrev pub text : String → Text
text String.[] = []
text (String.◌∷◌ c s) = code c ∷ text s

-- `==` on `str`.
unfoldable pub text_eq : Text → Text → Bool
text_eq [] [] = true
text_eq [] (d ∷ t) = false
text_eq (c ∷ s) [] = false
text_eq (c ∷ s) (d ∷ t) = c == d && text_eq s t

pub text_eq_iff : (s t : Text) → (text_eq s t ≡ true) ↔ (s ≡ t)
unfolding text_eq
text_eq_iff [] [] = (λ _. refl, λ _. refl)
text_eq_iff [] (d ∷ t) = (λ e. cc, λ e. cc)
text_eq_iff (c ∷ s) [] = (λ e. cc, λ e. cc)
text_eq_iff (c ∷ s) (d ∷ t) =
    (λ e. ground (arith, text_eq_iff s t), λ e. ground (arith, text_eq_iff s t))

-- `str::strip_prefix`.
unfoldable pub strip_prefix : Text → Text → Option Text
strip_prefix [] s = some s
strip_prefix (c ∷ p) [] = none
strip_prefix (c ∷ p) (d ∷ s) = let rest = strip_prefix p s in if c == d then rest else none

unfoldable pub starts_with : Text → Text → Bool
unfolding strip_prefix
starts_with p s = is_some (strip_prefix p s)

-- `str::strip_suffix`: the shortest front that the suffix completes.
unfoldable pub strip_suffix : Text → Text → Option Text
unfolding text_eq
strip_suffix p [] = if text_eq [] p then some [] else none
strip_suffix p (c ∷ s) =
    let rest = strip_suffix p s in
    if text_eq (c ∷ s) p then some [] else elim rest [ none ↦ none | some front ↦ some (c ∷ front) ]

-- Put a byte before the first piece.
abbrev pub onto_first : ℕ → List Text → List Text
onto_first c [] = (c ∷ []) ∷ []
onto_first c (p ∷ ps) = (c ∷ p) ∷ ps

-- `str::split` at a byte.
unfoldable pub split : ℕ → Text → List Text
split sep [] = [] ∷ []
split sep (c ∷ s) = let rest = split sep s in if c == sep then [] ∷ rest else onto_first c rest

-- `str::splitn`: at most `n` pieces, the last one whole.
unfoldable pub splitn : ℕ → ℕ → Text → List Text
splitn n sep [] = if leb n 0 then [] else [] ∷ []
splitn n sep (c ∷ s) =
    let same = splitn n sep s in
    let fewer = splitn (n - 1) sep s in
    if leb n 0
    then []
    else if leb n 1
    then (c ∷ s) ∷ []
    else if c == sep
    then [] ∷ fewer
    else onto_first c same

-- `str::split_once` at a text: around its first occurrence.
unfoldable pub split_once : Text → Text → Option (Text × Text)
unfolding strip_prefix
split_once p [] = elim (strip_prefix p []) [ none ↦ none | some after ↦ some ([], after) ]
split_once p (c ∷ s) =
    let rest = split_once p s in
    elim (strip_prefix p (c ∷ s)) [
      | some after ↦ some ([], after)
      | none ↦ elim rest [ none ↦ none | some (before, after) ↦ some (c ∷ before, after) ]
    ]

-- `str::rsplit_once` at a byte: around its last occurrence.
unfoldable pub rsplit_once : ℕ → Text → Option (Text × Text)
rsplit_once sep [] = none
rsplit_once sep (c ∷ s) = elim (rsplit_once sep s) [
  | some (before, after) ↦ some (c ∷ before, after)
  | none ↦ if c == sep then some ([], s) else none
]

unfoldable pub is_ascii_digit : ℕ → Bool
is_ascii_digit c = leb b'0' c && leb c b'9'

unfoldable pub is_ascii_alphanumeric : ℕ → Bool
unfolding is_ascii_digit
is_ascii_alphanumeric c = is_ascii_digit c || leb b'a' c && leb c b'z' || leb b'A' c && leb c b'Z'

unfoldable pub hex_digit : ℕ → Option ℕ
unfolding is_ascii_digit
hex_digit c =
    if is_ascii_digit c
    then some (c - b'0')
    else if leb b'a' c && leb c b'f'
    then some (c - b'a' + 10)
    else if leb b'A' c && leb c b'F'
    then some (c - b'A' + 10)
    else none

unfoldable pub hex_digits : ℕ → Text → Option ℕ
unfolding hex_digit
hex_digits n [] = some n
hex_digits n (c ∷ s) = elim (hex_digit c) [
  | none ↦ none
  | some d ↦ elim (ltb (n * 16 + d) u64_mod) [ true ↦ hex_digits (n * 16 + d) s | false ↦ none ]
]

-- `u64::from_str_radix(_, 16)`: an optional `+`, then at least one digit, and no overflow.
unfoldable pub from_str_radix_16 : Text → Option ℕ
unfolding hex_digits
from_str_radix_16 [] = none
from_str_radix_16 (c ∷ []) = if c == b'+' then none else hex_digits 0 (c ∷ [])
from_str_radix_16 (c ∷ d ∷ s) = if c == b'+' then hex_digits 0 (d ∷ s) else hex_digits 0 (c ∷ d ∷ s)

split_four :
    split b':' (text "cuda:runtime_api:x:exit")
    ≡ text "cuda" ∷ text "runtime_api" ∷ text "x" ∷ text "exit" ∷ []
unfolding split
split_four = refl

splitn_three :
    splitn 3 b':' (text "cuda:kernel_start:name~a:b")
    ≡ text "cuda" ∷ text "kernel_start" ∷ text "name~a:b" ∷ []
unfolding splitn
splitn_three = refl
