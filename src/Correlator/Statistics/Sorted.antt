-- ===== src/Correlator/Statistics/Sorted.antt =====
-- Sorted numbers: what stands at a place of `sort_values`, and how its sum is bounded.
use xprobe.Prelude.{
  ◌==◌, ℕ, zero, suc, ◌+◌, ◌*◌, ◌≤◌, ◌<◌, ◌≡◌, refl, subst, Bool, some, List, [], ◌∷◌, arith, ltb,
  leb, leb→le, length, get_elem?, count, All, Ordered, All-get_elem?,
}
use xprobe.Rust.Sort.{
  insert_by, sort_by, sort_by-Ordered, count-sort_by, length-sort_by, All-of_sort_by,
}
use xprobe.Correlator.Statistics.{sort_values, sum, last?}

pub sort_values-Ordered : (xs : List ℕ) → Ordered (λ a b. a ≤ b) (sort_values xs)
unfolding sort_values
sort_values-Ordered =
    sort_by-Ordered leb leb→le (λ a b h. ground (arith, h)) (λ a b c h k. omega arith)

pub length-sort_values : (xs : List ℕ) → length (sort_values xs) ≡ length xs
unfolding sort_values
length-sort_values = length-sort_by leb

pub count-sort_values : (p : ℕ → Bool) (xs : List ℕ) → count p (sort_values xs) ≡ count p xs
unfolding sort_values
count-sort_values = count-sort_by leb

-- A place of an ordered list bounds the numbers that come before and after it.
module _ (v : ℕ) where
  count_above : (xs : List ℕ) → All (λ x. v ≤ x) xs → count (λ x. ltb x v) xs ≡ 0
  count_above [] h = refl
  count_above (x ∷ xs) h = ground (arith, h.0, count_above xs h.1)

  pub count-leb_at :
      (xs : List ℕ) (i : ℕ)
      → Ordered (λ a b. a ≤ b) xs
      → get_elem? xs i ≡ some v
      → i < count (λ x. leb x v) xs
  count-leb_at [] i o h = cc
  count-leb_at (x ∷ xs) zero o h = ground arith
  count-leb_at (x ∷ xs) (suc i) o h =
      let le = All-get_elem? (λ y. x ≤ y) xs i v o.0 h in
      ground (arith, le, count-leb_at xs i o.1 h)

  pub count-ltb_at :
      (xs : List ℕ) (i : ℕ)
      → Ordered (λ a b. a ≤ b) xs
      → get_elem? xs i ≡ some v
      → count (λ x. ltb x v) xs ≤ i
  count-ltb_at [] i o h = cc
  count-ltb_at (x ∷ xs) zero o h =
      ground (arith, count_above xs (subst (λ y. All (λ z. y ≤ z) xs) (ground (arith, h)) o.0))
  count-ltb_at (x ∷ xs) (suc i) o h = ground (arith, count-ltb_at xs i o.1 h)

pub get_elem?-le :
    (xs : List ℕ) (i j : ℕ) {v w : ℕ}
    → Ordered (λ a b. a ≤ b) xs
    → i ≤ j
    → get_elem? xs i ≡ some v
    → get_elem? xs j ≡ some w
    → v ≤ w
get_elem?-le [] i j o l h k = cc
get_elem?-le (x ∷ xs) zero zero o l h k = ground (arith, h, k)
get_elem?-le (x ∷ xs) zero (suc j) {v} {w} o l h k =
    let le = All-get_elem? (λ y. x ≤ y) xs j w o.0 k in ground (arith, le, h)
get_elem?-le (x ∷ xs) (suc i) zero o l h k = absurd (omega arith)
get_elem?-le (x ∷ xs) (suc i) (suc j) o l h k = get_elem?-le xs i j o.1 (omega arith) h k

pub last?_lem : (x : ℕ) (xs : List ℕ) → last? (x ∷ xs) ≡ get_elem? (x ∷ xs) (length xs)
unfolding last?
last?_lem x [] = refl
last?_lem x (y ∷ xs) = last?_lem y xs

sum-insert_by : (x : ℕ) (xs : List ℕ) → sum (insert_by leb x xs) ≡ x + sum xs
unfolding sum insert_by
sum-insert_by x [] = refl
sum-insert_by x (y ∷ ys) = ground (arith, sum-insert_by x ys)

pub sum-sort_values : (xs : List ℕ) → sum (sort_values xs) ≡ sum xs
unfolding sum sort_values sort_by
sum-sort_values [] = refl
sum-sort_values (x ∷ xs) = ground (arith, sum-insert_by x (sort_by leb xs), sum-sort_values xs)

pub sum_le : (n : ℕ) (xs : List ℕ) → All (λ x. x < n) xs → sum xs ≤ length xs * n
unfolding sum
sum_le n [] h = omega arith
sum_le n (x ∷ xs) h = ground (arith, sum_le n xs h.1, h.0)

pub All-of_sort_values : (P : ℕ → Type 0) (xs : List ℕ) → All P (sort_values xs) → All P xs
unfolding sort_values
All-of_sort_values P = All-of_sort_by P leb

-- The ends of an ordered list bound it.
pub first_bounds :
    (x : ℕ) (xs : List ℕ) → Ordered (λ a b. a ≤ b) (x ∷ xs) → All (λ y. x ≤ y) (x ∷ xs)
first_bounds x xs o = (omega arith, o.0)

pub last_bounds :
    (xs : List ℕ) (w : ℕ) → Ordered (λ a b. a ≤ b) xs → last? xs ≡ some w → All (λ y. y ≤ w) xs
unfolding last?
last_bounds [] w o h = tt
last_bounds (x ∷ []) w o h = (ground (arith, h), tt)
last_bounds (x ∷ y ∷ xs) w o h =
    let rest = last_bounds (y ∷ xs) w o.1 h in (omega (arith, o.0.0, rest.0), rest)

-- A value that stands in a list is counted there.
pub count-get_elem? :
    (xs : List ℕ) (i : ℕ) {v : ℕ} → get_elem? xs i ≡ some v → 0 < count (λ x. x == v) xs
count-get_elem? [] i h = cc
count-get_elem? (x ∷ xs) zero h = ground (arith, h)
count-get_elem? (x ∷ xs) (suc i) {v} h = ground (arith, count-get_elem? xs i {v = v} h)
