-- ===== src/Core/CuptiCompat/Major.antt =====
-- The CUDA major that xprobe/core/src/cupti_compat.rs observes in a target.
use xprobe.Prelude.{
  ℕ, ◌≡◌, refl, sym, ap, ◌∙◌, subst, ◌⊎◌, inl, inr, Option, some, List, [], ◌∷◌, arith, map, All,
  All-imp, Bool-cases, Option-cases, some-injective, if◌then◌else◌,
}
use xprobe.Rust.Str.{Text, text}
use xprobe.Rust.Ord.{nat_ord}
use xprobe.Rust.BTreeMap.{get, insert}
use xprobe.Rust.Result.{ok-injective, ok, err, ◌>>◌}
use xprobe.Core.CuptiCompat.{
  CuptiCompatibilityError, is_supported, ensure_supported, library_major, Majors, collect_majors,
  collect_target_cupti_majors, union, only_major, target_major_from_libraries,
}

-- A major is in a set.
abbrev HasMajor : ℕ → Majors → Type 0
unfolding get
HasMajor k m = get k m ≡ some tt

has_insert : (k j : ℕ) (m : Majors) → HasMajor k m → HasMajor k (insert j tt m)
unfolding get insert
has_insert k j [] h = cc
has_insert k j ((i, _) ∷ m) h = ground (arith, has_insert k j m)

has_inserted : (k : ℕ) (m : Majors) → HasMajor k (insert k tt m)
unfolding get insert
has_inserted k [] = ground arith
has_inserted k ((i, _) ∷ m) = ground (arith, has_inserted k m)

has_first :
    (library : Text) (rest : List Text) (prefix : Text) (k : ℕ)
    → library_major library prefix ≡ some k
    → HasMajor k (collect_majors (library ∷ rest) prefix)
unfolding collect_majors
has_first library rest prefix k h =
    subst (HasMajor k) {x = insert k tt (collect_majors rest prefix)} (rw (h, collect_majors) refl)
      (has_inserted k (collect_majors rest prefix))

has_later :
    (library : Text) (rest : List Text) (prefix : Text) (k : ℕ)
    → HasMajor k (collect_majors rest prefix)
    → HasMajor k (collect_majors (library ∷ rest) prefix)
unfolding collect_majors
has_later library rest prefix k h = elim (Option-cases (library_major library prefix)) [
  | inl e ↦ subst (HasMajor k) {x = collect_majors rest prefix} (rw (e, collect_majors) refl) h
  | inr (j, e) ↦
      subst (HasMajor k) {x = insert j tt (collect_majors rest prefix)}
        (rw (e, collect_majors) refl) (has_insert k j (collect_majors rest prefix) h)
]

-- Every library with the prefix has its major in the set.
abbrev Names : List Text → Text → Majors → Type 0
Names libraries prefix m =
    All (λ library. (k : ℕ) → library_major library prefix ≡ some k → HasMajor k m) libraries

has_collected :
    (libraries : List Text) (prefix : Text)
    → Names libraries prefix (collect_majors libraries prefix)
has_collected [] prefix = tt
has_collected (library ∷ rest) prefix = (
  has_first library rest prefix,
  All-imp
      {Q = λ l.
        (k : ℕ)
        → library_major l prefix ≡ some k
        → HasMajor k (collect_majors (library ∷ rest) prefix)}
      (λ l (f : (k : ℕ) → library_major l prefix ≡ some k → HasMajor k (collect_majors rest prefix))
          (k : ℕ) (h : library_major l prefix ≡ some k).
        has_later library rest prefix k (f k h))
      rest (has_collected rest prefix),
)

has_union : (k : ℕ) (m n : Majors) → HasMajor k n → HasMajor k (union m n)
unfolding union
has_union k [] n h = h
has_union k ((j, _) ∷ m) n h = has_insert k j (union m n) (has_union k m n h)

-- What a target's major says of its runtime libraries.
pub record Observed (libraries : List Text) (target : Option ℕ) : Type 0 where
  pub supported : (major : ℕ) → target ≡ some major → (major ≡ 12) ⊎ (major ≡ 13)
  pub agrees :
      All
        (λ library.
          (k : ℕ) → library_major library (text "libcudart.so.") ≡ some k → target ≡ some k)
        libraries

single :
    (k : ℕ) (m : Majors) {target : Option ℕ}
    → only_major (map (λ (entry : ℕ × Unit {0}). entry.0) m) ≡ ok target
    → HasMajor k m
    → target ≡ some k
unfolding only_major ensure_supported get
single k [] h has = cc
single k ((j, _) ∷ []) {target} h has = elim (Bool-cases (is_supported j)) [
  | inr e ↦ absurd (
      cc (
        subst
          (λ b.
            ((if b then ok tt else err (CuptiCompatibilityError.unsupported_major j))
              >> ok (some j))
            ≡ ok target)
          e h))
  | inl e ↦
      sym (
        ok-injective (
          subst
            (λ b.
              ((if b then ok tt else err (CuptiCompatibilityError.unsupported_major j))
                >> ok (some j))
              ≡ ok target)
            e h))
      ∙ ap some (ground (arith, has))
]
single k (a ∷ b ∷ m) h has = cc

supported_only :
    (majors : List ℕ) {target : Option ℕ} (major : ℕ)
    → only_major majors ≡ ok target
    → target ≡ some major
    → (major ≡ 12) ⊎ (major ≡ 13)
unfolding only_major ensure_supported
supported_only [] major h is = cc
supported_only (j ∷ []) {target} major h is = elim (Bool-cases (is_supported j)) [
  | inr e ↦ absurd (
      cc (
        subst
          (λ b.
            ((if b then ok tt else err (CuptiCompatibilityError.unsupported_major j))
              >> ok (some j))
            ≡ ok target)
          e h))
  | inl e ↦
      let same : some j ≡ some major =
        ok-injective (
          subst
            (λ b.
              ((if b then ok tt else err (CuptiCompatibilityError.unsupported_major j))
                >> ok (some j))
              ≡ ok target)
            e h)
        ∙ is in
      ground (arith, some-injective same)
]
supported_only (a ∷ b ∷ m) major h is = cc

-- A CUDA major that is found from the loaded libraries is a supported one, and every libcudart
-- with a major in its name has that major; if none is found, no libcudart has a major in its
-- name.
pub target_major_from_libraries-Observed :
    (libraries : List Text) {target : Option ℕ}
    → target_major_from_libraries libraries ≡ ok target
    → Observed libraries target
unfolding target_major_from_libraries
target_major_from_libraries-Observed libraries {target} h =
    let runtime = collect_majors libraries (text "libcudart.so.") in
    let all = union (collect_target_cupti_majors libraries) runtime in
    record {
      supported =
          λ major is. supported_only (map (λ (entry : ℕ × Unit {0}). entry.0) all) major h is;
      agrees =
          All-imp
            {Q = λ l. (k : ℕ) → library_major l (text "libcudart.so.") ≡ some k → target ≡ some k}
            (λ l
                (f : (k : ℕ) → library_major l (text "libcudart.so.") ≡ some k → HasMajor k runtime)
                (k : ℕ) (e : library_major l (text "libcudart.so.") ≡ some k).
              single k all h (has_union k (collect_target_cupti_majors libraries) runtime (f k e)))
            libraries (has_collected libraries (text "libcudart.so."));
    }
