-- ===== src/Rust/Lines/Lossy.antt =====
-- `String::from_utf8_lossy` and `Path::to_string_lossy`: each run of bytes that is cut short in the
-- middle of a character, and each byte that begins none, becomes U+FFFD.
use xprobe.Prelude.{
  append_assoc, false, ℕ, zero, suc, ◌≡◌, refl, true, ◌&&◌, none, some, List, [], ◌∷◌, ◌++◌, leb,
  ◌==◌, if◌then◌else◌, arith, Bool, Option, Option-cases, subst, ap, ◌∙◌, inl, inr,
}
use xprobe.Rust.Str.{Text}
use xprobe.Rust.Lines.{utf8_lead, valid_from, valid_utf8}

-- U+FFFD.
abbrev replacement : Text
replacement = 0xEF ∷ 0xBF ∷ 0xBD ∷ []

-- The bytes of a character that is not complete, how many are missing, and the range of the next.
record Partial : Type 0 where
  held : List ℕ
  need : ℕ
  lo : ℕ
  hi : ℕ

abbrev nothing_held : Partial
nothing_held = record { held = []; need = 0; lo = 0x80; hi = 0xBF }

-- A byte where a character begins.
unfoldable lossy_lead : ℕ → Text × Partial
lossy_lead c = elim (utf8_lead c) [
  | none ↦ (replacement, nothing_held)
  | some (zero, lo, hi) ↦ (c ∷ [], nothing_held)
  | some (suc n, lo, hi) ↦ ([], record { held = c ∷ []; need = suc n; lo = lo; hi = hi })
]

-- A byte inside a character: the next one of it, or the first one of another.
unfoldable lossy_next : (held : List ℕ) (need lo hi : ℕ) → ℕ → Text × Partial
unfolding lossy_lead
lossy_next held zero lo hi c = lossy_lead c
lossy_next held (suc zero) lo hi c =
    if leb lo c && leb c hi
    then (held ++ c ∷ [], nothing_held)
    else (replacement ++ (lossy_lead c).0, (lossy_lead c).1)
lossy_next held (suc (suc n)) lo hi c =
    if leb lo c && leb c hi
    then ([], record { held = held ++ c ∷ []; need = suc n; lo = 0x80; hi = 0xBF })
    else (replacement ++ (lossy_lead c).0, (lossy_lead c).1)

unfoldable lossy_from : (p : Partial) → List ℕ → Text
unfolding lossy_next
lossy_from p [] = if p.need == 0 then [] else replacement
lossy_from p (c ∷ bytes) =
    let (out, next) = lossy_next p.held p.need p.lo p.hi c in out ++ lossy_from next bytes

unfoldable pub from_utf8_lossy : List ℕ → Text
unfolding lossy_from
from_utf8_lossy bytes = lossy_from nothing_held bytes

-- A text, a character cut short, a byte that begins none, and a surrogate.
lossy_texts :
    from_utf8_lossy (97 ∷ 0xC3 ∷ 0xA9 ∷ 0xF0 ∷ 0x9F ∷ 98 ∷ 0xFF ∷ 0xED ∷ 0xA0 ∷ [])
    ≡ 97 ∷ 0xC3 ∷ 0xA9 ∷ replacement ++ 98 ∷ [] ++ replacement ++ replacement ++ replacement
unfolding from_utf8_lossy lossy_from lossy_next lossy_lead
lossy_texts = refl

-- Where a character begins, there is no range.
valid_any :
    (lo hi lo' hi' : ℕ) (bytes : List ℕ)
    → valid_from 0 lo hi bytes ≡ true
    → valid_from 0 lo' hi' bytes ≡ true
unfolding valid_from
valid_any lo hi lo' hi' [] v = refl
valid_any lo hi lo' hi' (c ∷ bytes) v = v

valid_next :
    (need lo hi c : ℕ) (bytes : List ℕ)
    → valid_from (suc need) lo hi (c ∷ bytes) ≡ true
    → ((leb lo c && leb c hi) ≡ true) × (valid_from need 0x80 0xBF bytes ≡ true)
unfolding valid_from
valid_next need lo hi c bytes v = ground arith

abbrev valid_lead : List ℕ → Option (ℕ × ℕ × ℕ) → Bool
valid_lead bytes none = false
valid_lead bytes (some (need, lo, hi)) = valid_from need lo hi bytes

-- Valid bytes are kept as they are.
lossy_from-held :
    (held : List ℕ) (need lo hi : ℕ) (bytes : List ℕ)
    → (need ≡ 0 → held ≡ [])
    → valid_from need lo hi bytes ≡ true
    → lossy_from (record { held = held; need = need; lo = lo; hi = hi }) bytes ≡ held ++ bytes
unfolding lossy_from lossy_next lossy_lead valid_from
lossy_from-held held zero lo hi [] h v = rw (h refl) refl
lossy_from-held held (suc need) lo hi [] h v = cc
lossy_from-held held zero lo hi (c ∷ bytes) h v = elim (Option-cases (utf8_lead c)) [
  | inl e ↦ absurd (cc (subst (λ o. valid_lead bytes o ≡ true) e v))
  | inr ((zero, low, high), e) ↦
      let rest = subst (λ o. valid_lead bytes o ≡ true) e v in
      rw (e, lossy_lead)
        (rw (h refl) (
          ap (λ t. c ∷ t)
            (lossy_from-held [] 0 0x80 0xBF bytes (λ z. refl)
              (valid_any low high 0x80 0xBF bytes rest))))
  | inr ((suc n, low, high), e) ↦
      let rest = subst (λ o. valid_lead bytes o ≡ true) e v in
      rw (e, lossy_lead)
        (rw (h refl) (lossy_from-held (c ∷ []) (suc n) low high bytes (λ z. cc) rest))
]
lossy_from-held held (suc zero) lo hi (c ∷ bytes) h v =
    let (in_range, rest) = valid_next 0 lo hi c bytes v in
    rw in_range (
      ap (λ t. (held ++ c ∷ []) ++ t) (lossy_from-held [] 0 0x80 0xBF bytes (λ z. refl) rest)
      ∙ append_assoc held (c ∷ []) bytes)
lossy_from-held held (suc (suc need)) lo hi (c ∷ bytes) h v =
    let (in_range, rest) = valid_next (suc need) lo hi c bytes v in
    rw in_range (
      lossy_from-held (held ++ c ∷ []) (suc need) 0x80 0xBF bytes (λ z. cc) rest
      ∙ append_assoc held (c ∷ []) bytes)

from_utf8_lossy-valid : (bytes : List ℕ) → valid_utf8 bytes ≡ true → from_utf8_lossy bytes ≡ bytes
unfolding from_utf8_lossy valid_utf8
from_utf8_lossy-valid bytes v = lossy_from-held [] 0 0x80 0xBF bytes (λ z. refl) v
