-- ===== src/Correlator/Statistics/Summary.antt =====
-- `statistics` of xprobe/correlator/src/lib.rs against a description that does not sort.
use xprobe.Prelude.{
  ◌==◌, ℕ, suc, ◌+◌, ◌-◌, ◌*◌, ◌/◌, ◌%◌, ◌≤◌, ◌<◌, ◌≡◌, refl, sym, ap, ◌∙◌, subst, inl, inr, Option,
  some, List, ◌∷◌, arith, ltb, leb, length, get_elem?, count, List-cases, All, Ordered,
  get_elem?-some,
}
use xprobe.Rust.Words.{u64_mod, u128_mod}
use xprobe.Protocol.Measurement.{LatencyStatistics}
use xprobe.Correlator.Statistics.{
  Float, ratio, sort_values, sum, rank, percentile, last?, statistics,
}
use xprobe.Correlator.Statistics.Sorted.{
  sort_values-Ordered, length-sort_values, count-sort_values, count-leb_at, count-ltb_at,
  get_elem?-le, last?_lem, sum-sort_values, sum_le, All-of_sort_values, count-get_elem?,
  first_bounds, last_bounds,
}

-- The nearest-rank percentile: at least `p` percent of the values are at most `v`, and less than `p`
-- percent are below it.
pub record IsPercentile (values : List ℕ) (p v : ℕ) : Type 0 where
  pub reached : p * length values ≤ 100 * count (λ x. leb x v) values
  pub first : 100 * count (λ x. ltb x v) values < p * length values

-- What the statistics of a list of latencies are.
pub record Summarizes (f : Float) (values : List ℕ) (r : Option (LatencyStatistics (f.F)))
    : Type 0 where
  pub stats : LatencyStatistics (f.F)
  pub returns : r ≡ some stats
  pub least : All (λ x. stats.min ≤ x) values
  pub least_attained : 0 < count (λ x. x == stats.min) values
  pub greatest_attained : 0 < count (λ x. x == stats.max) values
  pub greatest : All (λ x. x ≤ stats.max) values
  pub average : stats.mean ≡ ratio f (sum values) (length values)
  pub median : IsPercentile values 50 stats.p50
  pub ninetieth : IsPercentile values 90 stats.p90
  pub ninety_fifth : IsPercentile values 95 stats.p95
  pub ninety_ninth : IsPercentile values 99 stats.p99
  pub ascending :
      (stats.min ≤ stats.p50)
      × (stats.p50 ≤ stats.p90)
      × (stats.p90 ≤ stats.p95)
      × (stats.p95 ≤ stats.p99)
      × (stats.p99 ≤ stats.max)

-- A rank between two places, for `m` as `p * n`.
rank_bounds : (m n : ℕ) → 0 < m → m ≤ 100 * n → (m + 99) / 100 - 1 < n
rank_bounds m n h k = omega arith

rank_covers :
    (m : ℕ) → 0 < m → (m ≤ 100 * (suc ((m + 99) / 100 - 1))) × (100 * ((m + 99) / 100 - 1) < m)
rank_covers m h = (omega arith, omega arith)

rank_mono : (l m : ℕ) → l ≤ m → (l + 99) / 100 - 1 ≤ (m + 99) / 100 - 1
rank_mono l m h = omega arith

-- The value at a percentage, with where it stands.
record At (values : List ℕ) (p : ℕ) : Type 0 where
  value : ℕ
  place : ℕ
  is_place : place ≡ (p * length values + 99) / 100 - 1
  stands : get_elem? (sort_values values) place ≡ some value
  found : percentile (sort_values values) p ≡ some value
  is_percentile : IsPercentile values p value

percentile-At :
    (values : List ℕ) (p : ℕ)
    → 0 < p * length values
    → p * length values ≤ 100 * length values
    → p * length values < u64_mod
    → At values p
unfolding percentile rank
percentile-At values p h k fits =
    let sorted = sort_values values in
    let m = p * length values in
    let n_eq = length-sort_values values in
    let exact : p * length values % u64_mod ≡ p * length values = omega arith in
    let place = (m + 99) / 100 - 1 in
    let bound = rank_bounds m (length values) h k in
    let (v, e) = get_elem?-some sorted place (subst (λ n. place < n) (sym n_eq) bound) in
    let ordered = sort_values-Ordered values in
    let upto = count-leb_at v sorted place ordered e in
    let below = count-ltb_at v sorted place ordered e in
    let covers = rank_covers m h in
    record {
      value = v;
      place = place;
      is_place = refl;
      stands = e;
      found = rw n_eq (rw exact e);
      is_percentile = record {
        reached = omega (arith, covers.0, upto, count-sort_values (λ x. leb x v) values);
        first = omega (arith, covers.1, below, count-sort_values (λ x. ltb x v) values);
      };
    }

-- Values below 2^64, fewer than 2^64 of them, do not overflow the u128 sum.
sum_exact :
    (values : List ℕ)
    → All (λ x. x < u64_mod) values
    → length values < u64_mod
    → sum values % u128_mod ≡ sum values
sum_exact values h k = omega (arith, sum_le u64_mod values h)

-- The ranks of the percentages ascend.
At-le :
    {values : List ℕ} {p q : ℕ} (a : At values p) (b : At values q)
    → p * length values ≤ q * length values
    → a.value ≤ b.value
At-le {values} a b h =
    get_elem?-le (sort_values values) a.place b.place (sort_values-Ordered values)
      (ground (arith, a.is_place, b.is_place, rank_mono _ _ h)) a.stands b.stands

module _ (f : Float) where
  -- For a list of u64 values that is not empty and so short that 99 times its length is below
  -- 2^64, `statistics` returns: min and max are the least and the greatest of the values, its
  -- mean is that of the exact sum, each percentile p is the nearest-rank one (at least p percent
  -- of the values are at most it, fewer than p percent are below it), and min, p50, p90, p95, p99
  -- and max ascend.
  pub statistics-Summarizes :
      (values : List ℕ)
      → 0 < length values
      → 99 * length values < u64_mod
      → All (λ x. x < u64_mod) values
      → Summarizes f values (statistics f values)
  unfolding statistics
  statistics-Summarizes values nonempty few words =
      let sorted = sort_values values in
      let ordered = sort_values-Ordered values in
      let n_eq = length-sort_values values in
      let p50 = percentile-At values 50 (omega arith) (omega arith) (omega arith) in
      let p90 = percentile-At values 90 (omega arith) (omega arith) (omega arith) in
      let p95 = percentile-At values 95 (omega arith) (omega arith) (omega arith) in
      let p99 = percentile-At values 99 (omega arith) (omega arith) (omega arith) in
      elim (List-cases sorted) [
        | inl e ↦ absurd (ground (arith, e, n_eq))
        | inr (x, xs, e) ↦
            let (w, last_at) = get_elem?-some (x ∷ xs) (length xs) (omega arith) in
            let last_is : last? sorted ≡ some w = rw e (last?_lem x xs ∙ last_at) in
            let first_is : get_elem? sorted 0 ≡ some x = rw e refl in
            let last_stands : get_elem? sorted (length xs) ≡ some w = rw e last_at in
            let size : length values ≡ suc (length xs) = sym n_eq ∙ ap length e in
            record {
              stats = record {
                min = x;
                mean = ratio f (sum sorted % u128_mod) (length sorted);
                p50 = p50.value;
                p90 = p90.value;
                p95 = p95.value;
                p99 = p99.value;
                max = w;
              };
              returns = rw (first_is, p50.found, p90.found, p95.found, p99.found, last_is) refl;
              least =
                  All-of_sort_values (λ y. x ≤ y) values
                    (subst (All (λ y. x ≤ y)) (sym e)
                      (first_bounds x xs (subst (Ordered (λ a b. a ≤ b)) e ordered)));
              least_attained = omega (
                arith,
                count-sort_values (λ y. y == x) values,
                count-get_elem? sorted 0 first_is,
              );
              greatest_attained = omega (
                arith,
                count-sort_values (λ y. y == w) values,
                count-get_elem? sorted (length xs) last_stands,
              );
              greatest =
                  All-of_sort_values (λ y. y ≤ w) values (last_bounds sorted w ordered last_is);
              average =
                  rw (n_eq, sum-sort_values values, sum_exact values words (omega arith)) refl;
              median = p50.is_percentile;
              ninetieth = p90.is_percentile;
              ninety_fifth = p95.is_percentile;
              ninety_ninth = p99.is_percentile;
              ascending = (
                get_elem?-le sorted 0 p50.place ordered (omega arith) first_is p50.stands,
                At-le p50 p90 (omega arith),
                At-le p90 p95 (omega arith),
                At-le p95 p99 (omega arith),
                get_elem?-le sorted p99.place (length xs) ordered
                    (omega (
                      arith,
                      p99.is_place,
                      size,
                      rank_bounds (99 * length values) (length values) (omega arith) (omega arith),
                    ))
                    p99.stands last_stands,
              );
            }
      ]
