-- ===== src/Correlator/Statistics.antt =====
-- `statistics`, `mean`, `ratio`, `percentile` and `maximum_timestamp_error` of
-- xprobe/correlator/src/lib.rs. `none` is a panic: an index out of range. Floating point is a
-- parameter: the conversions of `as f64` and the division.
pub mod Sorted
pub mod Summary
use xprobe.Prelude.{
  ℕ, zero, suc, ◌+◌, ◌-◌, ◌*◌, ◌/◌, ◌%◌, ◌^◌, ◌≤◌, ◌<◌, min, max, ◌≡◌, refl, sym, ap, ◌∙◌, subst,
  ◌≢◌, ◌↔◌, ◌⊎◌, inl, inr, Bool, true, false, not, ◌&&◌, ◌||◌, Option, none, some, List, [], ◌∷◌,
  ◌++◌, map, arith, ltb, leb, ◌==◌, if◌then◌else◌, ltb→lt, leb→le, Bool-cases, Option-cases,
  is_some, is_some_and, is_none_or, unwrap_or, decided, of_decided, and_then, length, get_elem?,
  take, drop, select, any, all, is_empty, count, length-append, count-append, length-take,
  List-cases, length-map, All, All-append, All-take, All-select, All-imp, All-of_forall, All-both,
  Ordered, All-get_elem?, All-select_test, get_elem?-some, length-select-le,
}
use xprobe.Rust.Words.{u64_mod, u128_mod}
use xprobe.Rust.Sort.{sort_by}
use xprobe.Protocol.Event.{Event, ClockDomain, ClockDomain-discrete}
use xprobe.Protocol.Measurement.{LatencyStatistics}
use xprobe.Correlator.Pairs.{Pair}

-- `sort_unstable` on u64: equal numbers cannot be told apart, so any sort gives this list.
unfoldable pub sort_values : List ℕ → List ℕ
unfolding sort_by
sort_values = sort_by leb

unfoldable pub sum : List ℕ → ℕ
sum [] = 0
sum (x ∷ xs) = x + sum xs

-- `(percentile * sorted.len()).div_ceil(100)`: the product is a usize, as built for release.
unfoldable pub rank : ℕ → ℕ → ℕ
rank p n = (p * n % u64_mod + 99) / 100

unfoldable pub percentile : List ℕ → ℕ → Option ℕ
unfolding rank
percentile sorted p = get_elem? sorted (rank p (length sorted) - 1)

-- `sorted.last()`.
unfoldable pub last? : List ℕ → Option ℕ
last? [] = none
last? (x ∷ []) = some x
last? (x ∷ y ∷ xs) = last? (y ∷ xs)

-- `f64`.
pub record Float : Type 1 where
  pub F : Type 0
  pub of_int : ℕ → F
  pub div : F → F → F

module _ (f : Float) where
  open f use {F, of_int, div}

  unfoldable pub ratio : ℕ → ℕ → F
  ratio numerator denominator = div (of_int numerator) (of_int denominator)

  -- The sum is a u128.
  unfoldable pub statistics : List ℕ → Option (LatencyStatistics F)
  unfolding sort_values sum percentile last? ratio
  statistics values =
      let sorted = sort_values values in
      and_then (get_elem? sorted 0) λ min. and_then (percentile sorted 50) λ p50.
        and_then (percentile sorted 90) λ p90. and_then (percentile sorted 95) λ p95.
          and_then (percentile sorted 99) λ p99. and_then (last? sorted) λ max. some (record {
            min = min;
            mean = ratio (sum sorted % u128_mod) (length sorted);
            p50 = p50;
            p90 = p90;
            p95 = p95;
            p99 = p99;
            max = max;
          })

module _ {V : Type 0} where
  -- The error of a timestamp: unknown on a normalized CUPTI clock that reports none.
  unfoldable event_error : Event V → Option ℕ
  unfolding ClockDomain-discrete
  event_error event =
      if decided
        (ClockDomain-discrete event.clock_domain ClockDomain.cupti_normalized_to_host_monotonic)
      then event.timestamp_error_ns
      else some (unwrap_or event.timestamp_error_ns 0)

  -- `try_fold`: the largest error, unless one is unknown.
  unfoldable max_errors : ℕ → List (Event V) → Option ℕ
  unfolding event_error
  max_errors largest [] = some largest
  max_errors largest (event ∷ events) = elim (event_error event) [
    | none ↦ none
    | some e ↦ max_errors (max largest e) events
  ]

  unfoldable both_events : List (Pair V) → List (Event V)
  both_events [] = []
  both_events (p ∷ ps) = p.start ∷ p.end ∷ both_events ps

  unfoldable pub maximum_timestamp_error : List (Pair V) → Option ℕ
  unfolding max_errors both_events
  maximum_timestamp_error pairs = max_errors 0 (both_events pairs)
