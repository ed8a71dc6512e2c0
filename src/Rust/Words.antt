-- ===== src/Rust/Words.antt =====
-- Unsigned machine words. A word is a number below its modulus; operations that may leave the range
-- say what the Rust operation does there.
use xprobe.Prelude.{
  ℕ, ◌+◌, ◌-◌, ◌%◌, ◌^◌, ◌≤◌, ◌<◌, ◌≡◌, Option, none, some, arith, ltb, leb, if◌then◌else◌,
}

abbrev pub u64_mod : ℕ
u64_mod = 2 ^ 64

abbrev pub u128_mod : ℕ
u128_mod = 2 ^ 128

-- The largest `usize` of a 64-bit target.
abbrev pub usize_max : ℕ
usize_max = 2 ^ 64 - 1

-- `a - b` on u64, as built for release: it wraps.
unfoldable pub sub_u64 : ℕ → ℕ → ℕ
sub_u64 a b = (a + u64_mod - b) % u64_mod

-- `a + b` on u64, as built for release: it wraps.
unfoldable pub add_u64 : ℕ → ℕ → ℕ
add_u64 a b = (a + b) % u64_mod

-- `u64::saturating_add`.
unfoldable pub saturating_add : ℕ → ℕ → ℕ
saturating_add a b = if ltb (a + b) u64_mod then a + b else u64_mod - 1

unfoldable pub checked_sub : ℕ → ℕ → Option ℕ
checked_sub a b = if leb b a then some (a - b) else none

-- `u64::checked_add`.
unfoldable pub checked_add : ℕ → ℕ → Option ℕ
checked_add a b = if ltb (a + b) u64_mod then some (a + b) else none

unfoldable pub abs_diff : ℕ → ℕ → ℕ
abs_diff a b = if leb b a then a - b else b - a

-- Below the modulus and with no borrow, the wrapping difference is the difference.
pub sub_u64_exact : (a b : ℕ) → b ≤ a → a < u64_mod → b + sub_u64 a b ≡ a
unfolding sub_u64
sub_u64_exact a b h k = omega arith

pub checked_sub_exact : (a b : ℕ) {d : ℕ} → checked_sub a b ≡ some d → b + d ≡ a
unfolding checked_sub
checked_sub_exact a b h = ground arith

pub checked_sub-some : (a b : ℕ) → b ≤ a → (d : ℕ) × (checked_sub a b ≡ some d)
unfolding checked_sub
checked_sub-some a b h = (a - b, ground arith)
