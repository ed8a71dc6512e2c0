-- ===== src/Correlator/Checks.antt =====
-- The tests of xprobe/correlator/src/lib.rs on the options, the clocks and the window of a measurement:
-- `validate_options`, `common_clock_domain` and `apply_duration_window`. A `Duration` is its number of
-- nanoseconds.
pub mod Clock
pub mod Window
use xprobe.Prelude.{
  ℕ, min, Bool, not, ◌&&◌, ◌||◌, Option, none, some, List, [], ◌∷◌, ◌++◌, leb, ◌==◌, if◌then◌else◌,
  is_some, is_some_and, decided, select, is_empty,
}
use xprobe.Rust.Words.{u64_mod, checked_add}
use xprobe.Rust.Result.{Result, ok, err, ◌>>=◌, ◌>>◌, ok_or, fail_if}
use xprobe.Rust.Str.{Text}
use xprobe.Protocol.Event.{Event, ClockDomain, ClockDomain-discrete}
use xprobe.Protocol.Measurement.{MatchPolicy}
use xprobe.Correlator.Errors.{
  MeasureError, invalid_limit, LimitReason, clock_domains_differ, no_matched_samples,
}

pub record MeasureOptions : Type 0 where
  pub session_id : Text
  pub name : Option Text
  pub start_selector : Text
  pub end_selector : Text
  pub match_policy : MatchPolicy
  pub samples : Option ℕ
  pub duration : Option ℕ
  pub max_events : ℕ
  pub dropped_events : ℕ

unfoldable pub validate_options : MeasureOptions → Result (Unit {0}) MeasureError
validate_options o = do
  fail_if (not (is_some o.samples) && not (is_some o.duration))
      (invalid_limit LimitReason.no_samples_or_duration)
  fail_if (is_some_and o.samples (λ n. n == 0)) (invalid_limit LimitReason.zero_samples)
  fail_if (is_some_and o.duration (λ d. d == 0)) (invalid_limit LimitReason.zero_duration)
  fail_if (o.max_events == 0) (invalid_limit LimitReason.zero_max_events)
  fail_if (is_empty o.session_id) (invalid_limit LimitReason.empty_session_id)
  ok tt

abbrev pub same_domain : ClockDomain → ClockDomain → Bool
same_domain a b = decided (ClockDomain-discrete a b)

unfoldable pub clock_group : ClockDomain → ℕ
clock_group ClockDomain.host_monotonic = 0
clock_group ClockDomain.cupti_normalized_to_host_monotonic = 0
clock_group ClockDomain.cupti = 1

module _ {V : Type 0} where
  -- The smaller of the first timestamps.
  abbrev pub first_timestamp : (starts ends : List (Event V)) → Option ℕ
  first_timestamp [] [] = none
  first_timestamp (s ∷ starts) [] = some s.timestamp_ns
  first_timestamp [] (e ∷ ends) = some e.timestamp_ns
  first_timestamp (s ∷ starts) (e ∷ ends) = some (min s.timestamp_ns e.timestamp_ns)

  abbrev pub no_later : ℕ → Event V → Bool
  no_later t event = leb event.timestamp_ns t

  unfoldable pub apply_duration_window :
      (starts ends : List (Event V)) (duration : Option ℕ)
      → Result (List (Event V) × List (Event V)) MeasureError
  unfolding checked_add
  apply_duration_window starts ends none = ok (starts, ends)
  apply_duration_window starts ends (some duration) = elim (first_timestamp starts ends) [
    | none ↦ ok (starts, ends)
    | some first ↦ do
      fail_if (leb u64_mod duration) (invalid_limit LimitReason.duration_range)
      last ← ok_or (checked_add first duration) (invalid_limit LimitReason.window_overflow)
      ok (select (no_later last) starts, select (no_later last) ends)
  ]

  -- The loop over the events after the first.
  unfoldable pub clock_loop :
      (first : ClockDomain) (has_normalized : Bool)
      → List (Event V)
      → Result ClockDomain MeasureError
  unfolding clock_group ClockDomain-discrete
  clock_loop first has_normalized [] =
      if clock_group first == 1
      then ok ClockDomain.cupti
      else if has_normalized
      then ok ClockDomain.cupti_normalized_to_host_monotonic
      else ok ClockDomain.host_monotonic
  clock_loop first has_normalized (event ∷ events) =
      let rest =
        clock_loop first
          (has_normalized
            || same_domain event.clock_domain ClockDomain.cupti_normalized_to_host_monotonic)
          events in
      if not (clock_group event.clock_domain == clock_group first)
      then err (clock_domains_differ first event.clock_domain)
      else rest

  abbrev pub clock_of : List (Event V) → Result ClockDomain MeasureError
  clock_of [] = err no_matched_samples
  clock_of (first ∷ events) =
      clock_loop first.clock_domain
        (same_domain first.clock_domain ClockDomain.cupti_normalized_to_host_monotonic) events

  unfoldable pub common_clock_domain :
      (starts ends : List (Event V)) → Result ClockDomain MeasureError
  unfolding clock_loop
  common_clock_domain starts ends = clock_of (starts ++ ends)
