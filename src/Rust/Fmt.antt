-- ===== src/Rust/Fmt.antt =====
-- Numbers as text: `{}`, `{:x}` and `{:02x}` of `format!`, and `str::parse` on the integer types.
use xprobe.Prelude.{
  true, false, Option-cases, if-cases, some-injective, sym, subst, lt→ltb, ap, ltb→lt, ℕ, zero, suc,
  ◌+◌, ◌-◌, ◌*◌, ◌/◌, ◌%◌, ◌^◌, ◌≤◌, ◌<◌, ◌≡◌, refl, ◌∙◌, inl, inr, false, ◌&&◌, Option, none, some,
  List, [], ◌∷◌, arith, ltb, ◌==◌, if◌then◌else◌, Bool-cases,
}
use xprobe.Rust.Words.{u64_mod}
use xprobe.Rust.Str.{Text, is_ascii_digit, hex_digit, hex_digits, from_str_radix_16}

abbrev pub u32_mod : ℕ
u32_mod = 2 ^ 32

-- The digits of a number below `10 ^ fuel`, before the text `rest`.
unfoldable pub decimal_at : ℕ → ℕ → Text → Text
decimal_at zero n rest = rest
decimal_at (suc fuel) n rest =
    let here = (b'0' + n % 10) ∷ rest in
    let more = decimal_at fuel (n / 10) here in if ltb n 10 then here else more

-- A u64 has at most twenty digits.
unfoldable pub decimal : ℕ → Text
unfolding decimal_at
decimal n = decimal_at 20 n []

unfoldable pub hex_char : ℕ → ℕ
hex_char d = if ltb d 10 then b'0' + d else b'a' + (d - 10)

unfoldable pub hex_at : ℕ → ℕ → Text → Text
unfolding hex_char
hex_at zero n rest = rest
hex_at (suc fuel) n rest =
    let here = hex_char (n % 16) ∷ rest in
    let more = hex_at fuel (n / 16) here in if ltb n 16 then here else more

-- A u64 has at most sixteen hexadecimal digits.
unfoldable pub lower_hex : ℕ → Text
unfolding hex_at
lower_hex n = hex_at 16 n []

-- `{:02x}` of each byte: the two functions `hex_encode` of xprobe/core.
unfoldable pub hex_encode : List ℕ → Text
unfolding hex_char
hex_encode [] = []
hex_encode (b ∷ bytes) = hex_char (b / 16) ∷ hex_char (b % 16) ∷ hex_encode bytes

unfoldable pub digits : ℕ → ℕ → Text → Option ℕ
unfolding is_ascii_digit
digits modulus n [] = some n
digits modulus n (c ∷ s) =
    let rest = digits modulus (n * 10 + (c - b'0')) s in
    if is_ascii_digit c && ltb (n * 10 + (c - b'0')) modulus then rest else none

-- `str::parse` on an unsigned type: an optional `+`, then at least one digit, and no overflow.
unfoldable pub parse_unsigned : ℕ → Text → Option ℕ
unfolding digits
parse_unsigned modulus [] = none
parse_unsigned modulus (c ∷ []) = if c == b'+' then none else digits modulus 0 (c ∷ [])
parse_unsigned modulus (c ∷ d ∷ s) =
    if c == b'+' then digits modulus 0 (d ∷ s) else digits modulus 0 (c ∷ d ∷ s)

hex_digit-hex_char : (d : ℕ) → d < 16 → hex_digit (hex_char d) ≡ some d
unfolding hex_digit hex_char is_ascii_digit
hex_digit-hex_char d h = ground arith

-- Reading one more digit.
hex_digits-hex_char :
    (m d : ℕ) (rest : Text)
    → d < 16
    → m * 16 + d < u64_mod
    → hex_digits m (hex_char d ∷ rest) ≡ hex_digits (m * 16 + d) rest
unfolding hex_digits
hex_digits-hex_char m d rest h k = rw (hex_digit-hex_char d h, hex_digits) (ground arith)

small_mod : (n : ℕ) → n < 16 → (0 * 16 + n % 16 ≡ n) × (n % 16 < 16)
small_mod n h = (omega arith, omega arith)

split_mod : (n : ℕ) → (n / 16 * 16 + n % 16 ≡ n) × (n % 16 < 16) × (n / 16 ≤ n)
split_mod n = (omega arith, omega arith, omega arith)

hex_digits-hex_at :
    (fuel n : ℕ) (rest : Text)
    → n < 16 ^ suc fuel
    → n < u64_mod
    → hex_digits 0 (hex_at (suc fuel) n rest) ≡ hex_digits n rest
unfolding hex_at
hex_digits-hex_at zero n rest h k =
    let low = small_mod n (omega arith) in
    rw (lt→ltb n 16 (omega arith)) (
      hex_digits-hex_char 0 (n % 16) rest low.1 (omega (arith, low.0))
      ∙ ap (λ i. hex_digits i rest) low.0)
hex_digits-hex_at (suc less) n rest h k = elim (Bool-cases (ltb n 16)) [
  | inl e ↦
      let low = small_mod n (ltb→lt n 16 e) in
      rw e (
        hex_digits-hex_char 0 (n % 16) rest low.1 (omega (arith, low.0))
        ∙ ap (λ i. hex_digits i rest) low.0)
  | inr e ↦
      let parts = split_mod n in
      rw e (
        hex_digits-hex_at less (n / 16) (hex_char (n % 16) ∷ rest) (ground arith)
          (omega (arith, parts.2))
        ∙ hex_digits-hex_char (n / 16) (n % 16) rest parts.1 (omega (arith, parts.0))
        ∙ ap (λ i. hex_digits i rest) parts.0)
]

hex_char-unsigned : (d : ℕ) → d < 16 → (hex_char d == b'+') ≡ false
unfolding hex_char
hex_char-unsigned d h = ground arith

-- What `{:x}` prints has a first digit, which is no sign.
hex_at-head :
    (fuel n : ℕ) (rest : Text)
    → (c : ℕ) × (s : Text) × (hex_at (suc fuel) n rest ≡ c ∷ s) × ((c == b'+') ≡ false)
unfolding hex_at
hex_at-head zero n rest =
    (hex_char (n % 16), rest, ground arith, hex_char-unsigned (n % 16) (omega arith))
hex_at-head (suc less) n rest = elim (Bool-cases (ltb n 16)) [
  | inl e ↦ rw e (hex_char (n % 16), rest, refl, hex_char-unsigned (n % 16) (omega arith))
  | inr e ↦ rw e (hex_at-head less (n / 16) (hex_char (n % 16) ∷ rest))
]

unsigned_hex :
    (c : ℕ) (s : Text) → (c == b'+') ≡ false → from_str_radix_16 (c ∷ s) ≡ hex_digits 0 (c ∷ s)
unfolding from_str_radix_16
unsigned_hex c [] h = rw h refl
unsigned_hex c (d ∷ s) h = rw h refl

hex_at-unsigned :
    (fuel n : ℕ) (rest : Text)
    → from_str_radix_16 (hex_at (suc fuel) n rest) ≡ hex_digits 0 (hex_at (suc fuel) n rest)
hex_at-unsigned fuel n rest =
    let (c, s, e, u) = hex_at-head fuel n rest in
    subst (λ t. from_str_radix_16 t ≡ hex_digits 0 t) (sym e) (unsigned_hex c s u)

-- What `{:x}` prints, `from_str_radix(_, 16)` reads back.
pub from_str_radix_16-lower_hex : (n : ℕ) → n < u64_mod → from_str_radix_16 (lower_hex n) ≡ some n
unfolding lower_hex hex_digits
from_str_radix_16-lower_hex n h =
    hex_at-unsigned 15 n [] ∙ hex_digits-hex_at 15 n [] (omega arith) h

hex_digits-bound : (n : ℕ) (s : Text) {m : ℕ} → n < u64_mod → hex_digits n s ≡ some m → m < u64_mod
unfolding hex_digits
hex_digits-bound n [] h e = subst (λ i. i < u64_mod) (some-injective e) h
hex_digits-bound n (c ∷ s) {m} h e = elim (Option-cases (hex_digit c)) [
  | inl none' ↦ absurd (
      cc (
        subst
          (λ o.
            elim o [
              | none ↦ none
              | some d ↦ elim (ltb (n * 16 + d) u64_mod) [
                | true ↦ hex_digits (n * 16 + d) s
                | false ↦ none
              ]
            ]
            ≡ some m)
          none' e))
  | inr (d, digit) ↦
      let step : (elim (ltb (n * 16 + d) u64_mod) [
        | true ↦ hex_digits (n * 16 + d) s
        | false ↦ none
      ])
          ≡ some m =
        subst
          (λ o.
            (elim o [
              | none ↦ none
              | some d ↦ elim (ltb (n * 16 + d) u64_mod) [
                | true ↦ hex_digits (n * 16 + d) s
                | false ↦ none
              ]
            ])
            ≡ some m)
          digit e in
      elim (Bool-cases (ltb (n * 16 + d) u64_mod)) [
        | inl small ↦ hex_digits-bound (n * 16 + d) s (ltb→lt (n * 16 + d) u64_mod small) (
            subst (λ b. (elim b [ true ↦ hex_digits (n * 16 + d) s | false ↦ none ]) ≡ some m) small
              step)
        | inr large ↦ absurd (
            cc (
              subst (λ b. (elim b [ true ↦ hex_digits (n * 16 + d) s | false ↦ none ]) ≡ some m)
                large step))
      ]
]

-- What is read is a u64.
pub from_str_radix_16-bound : (s : Text) {n : ℕ} → from_str_radix_16 s ≡ some n → n < u64_mod
unfolding from_str_radix_16
from_str_radix_16-bound [] e = cc
from_str_radix_16-bound (c ∷ []) e = elim (if-cases (c == b'+') e) [
  | inl (t, f) ↦ absurd (cc f)
  | inr (t, f) ↦ hex_digits-bound 0 (c ∷ []) (omega arith) f
]
from_str_radix_16-bound (c ∷ d ∷ s) e = elim (if-cases (c == b'+') e) [
  | inl (t, f) ↦ hex_digits-bound 0 (d ∷ s) (omega arith) f
  | inr (t, f) ↦ hex_digits-bound 0 (c ∷ d ∷ s) (omega arith) f
]
