-- ===== src/Correlator/Measure/Promises.antt =====
-- The results of `measure` of xprobe/correlator/src/lib.rs.
use xprobe.Prelude.{
  ◌*◌, ℕ, ◌≤◌, ◌<◌, ◌≡◌, refl, sym, ap, subst, ◌⊎◌, inl, inr, Bool, false, Option, some, List, [],
  ◌∷◌, map, arith, length, all, is_empty, List-cases, length-map, All, All-imp,
}
use xprobe.Rust.Str.{Text}
use xprobe.Rust.Words.{u64_mod, abs_diff}
use xprobe.Rust.Result.{Result, ok, err, Result-cases}
use xprobe.Protocol.Event.{Event, ClockDomain}
use xprobe.Protocol.Measurement.{MeasurementResult, MatchedEventPair}
use xprobe.Correlator.Errors.{MeasureError, no_matched_samples}
use xprobe.Correlator.Pairs.{Pair, Outcome}
use xprobe.Correlator.Selector.{Selector, parse}
use xprobe.Correlator.Policy.{validate_policy}
use xprobe.Correlator.Statistics.{Float}
use xprobe.Correlator.Statistics.Summary.{Summarizes, statistics-Summarizes}
use xprobe.Correlator.FirstAfter.Matching.{IsU64Stamped}
use xprobe.Correlator.Checks.{MeasureOptions}
use xprobe.Correlator.Measure.{
  Prepared, evidence_of, prepare, result_of, summarize, correlate, measure,
}
use xprobe.Correlator.Measure.Selected.{IsMeasured, correlate_selected-Chosen}
use xprobe.Correlator.Measure.Preparation.{IsSelected, IsPrepared, prepare-IsPrepared}

-- The latencies of the evidence.
abbrev latencies : {V : Type 0} → List (Pair V) → List ℕ
latencies pairs = map (λ pair. pair.latency_ns) pairs

module _ {V : Type 0} (S E : Event V → Type 0) where
  -- A pair that a measurement shows: of a start and an end, with their distance in time.
  abbrev pub IsEvidence : MatchedEventPair V → Type 0
  IsEvidence m =
      (S m.start × E m.end) × (m.latency_ns ≡ abs_diff m.end.timestamp_ns m.start.timestamp_ns)

  -- A measurement from events of two kinds.
  pub record IsSound (f : Float) (options : MeasureOptions) (r : MeasurementResult V (f.F))
      : Type 0 where
    pub shown : All IsEvidence r.evidence
    pub counted : r.measurement.samples.matched ≡ length r.evidence
    pub some_sample : 0 < r.measurement.samples.matched
    pub within : (n : ℕ) → options.samples ≡ some n → r.measurement.samples.matched ≤ n
    pub summarized :
        Summarizes f (map (λ m. m.latency_ns) r.evidence) (some r.measurement.latency_ns)

  IsEvidence-All :
      (pairs : List (Pair V)) → All (IsMeasured S E) pairs → All IsEvidence (map evidence_of pairs)
  IsEvidence-All [] h = tt
  IsEvidence-All (p ∷ pairs) h = (((h.0.from, h.0.to), h.0.distance), IsEvidence-All pairs h.1)

  latencies-map :
      (pairs : List (Pair V)) → map (λ m. m.latency_ns) (map evidence_of pairs) ≡ latencies pairs
  latencies-map [] = refl
  latencies-map (p ∷ pairs) = ap (◌∷◌ p.latency_ns) (latencies-map pairs)

abs_diff_lt : (a b : ℕ) → a < u64_mod → b < u64_mod → abs_diff a b < u64_mod
unfolding abs_diff
abs_diff_lt a b h k = ground arith

module _ {V : Type 0} (S E : Event V → Type 0)
    (start_stamped : (e : Event V) → S e → IsU64Stamped e)
    (end_stamped : (e : Event V) → E e → IsU64Stamped e) where
  latencies-All :
      (pairs : List (Pair V))
      → All (IsMeasured S E) pairs
      → All (λ x. x < u64_mod) (latencies pairs)
  latencies-All [] h = tt
  latencies-All (p ∷ pairs) h =
      let bound =
        abs_diff_lt p.end.timestamp_ns p.start.timestamp_ns (end_stamped p.end h.0.to)
          (start_stamped p.start h.0.from) in
      (omega (arith, h.0.distance, bound), latencies-All pairs h.1)

  -- The measurement of an outcome with pairs.
  summarize-IsSound :
      (f : Float) (events : List (Event V)) (options : MeasureOptions) (p : Prepared V)
      (o : Outcome V)
      → All (IsMeasured S E) o.pairs
      → 0 < length o.pairs
      → 99 * length o.pairs < u64_mod
      → ((n : ℕ) → options.samples ≡ some n → length o.pairs ≤ n)
      → (r : MeasurementResult V (f.F)) × (summarize f events options p o ≡ some r)
        × IsSound S E f options r
  unfolding summarize result_of
  summarize-IsSound f events options p o h n few within =
      let size = length-map (λ (p : Pair V). p.latency_ns) o.pairs in
      let sum =
        statistics-Summarizes f (latencies o.pairs) (omega (arith, size)) (omega (arith, size))
          (latencies-All o.pairs h) in
      let rewritten =
        subst (λ l. Summarizes f l (some sum.stats)) (sym (latencies-map S E o.pairs))
          (subst (Summarizes f (latencies o.pairs)) sum.returns sum) in
      (
        result_of f events options p o sum.stats,
        rw (sum.returns, summarize) refl,
        record {
          shown = IsEvidence-All S E o.pairs h;
          counted = sym (length-map evidence_of o.pairs);
          some_sample = n;
          within = within;
          summarized = rewritten;
        },
      )

module _ {V R : Type 0} (as_str : V → Option Text) (regex_new : Text → Option R)
    (is_match : R → Text → Bool) (f : Float) (P : Event V → Type 0) where
  -- The selectors and the clock that a measurement has used, and that its evidence respects.
  pub record IsMeasurement (options : MeasureOptions) (r : MeasurementResult V (f.F)) : Type 0 where
    pub start_selector : Selector R
    pub end_selector : Selector R
    pub domain : ClockDomain
    pub start_parsed : parse regex_new options.start_selector ≡ ok start_selector
    pub end_parsed : parse regex_new options.end_selector ≡ ok end_selector
    pub supported : validate_policy start_selector end_selector options.match_policy ≡ ok tt
    pub undropped : options.dropped_events ≡ 0
    pub sound :
        IsSound
          (IsSelected as_str regex_new is_match P start_selector domain)
          (IsSelected as_str regex_new is_match P end_selector domain)
          f
          options
          r

  -- An error or such a measurement, and no panic.
  abbrev pub Returns :
      MeasureOptions → Option (Result (MeasurementResult V (f.F)) MeasureError) → Type 0
  Returns options r =
      ((e : MeasureError) × (r ≡ some (err e)))
      ⊎ ((m : MeasurementResult V (f.F)) × (r ≡ some (ok m)) × IsMeasurement options m)

  correlate-IsMeasurement :
      (events : List (Event V)) (options : MeasureOptions) (p : Prepared V)
      → ((e : Event V) → P e → IsU64Stamped e)
      → 99 * length events < u64_mod
      → IsPrepared as_str regex_new is_match P events options p
      → (correlate f events options p ≡ some (err no_matched_samples))
        ⊎ ((r : MeasurementResult V (f.F)) × (correlate f events options p ≡ some (ok r))
            × IsMeasurement options r)
  unfolding correlate
  correlate-IsMeasurement events options p stamped few prep =
      let S = IsSelected as_str regex_new is_match P prep.start_selector p.clock_domain in
      let E = IsSelected as_str regex_new is_match P prep.end_selector p.clock_domain in
      let c =
        correlate_selected-Chosen S E p.starts p.ends options.samples (omega (arith, prep.fewer))
          prep.starts_selected (All-imp (λ e h. (h, stamped e h.0.0)) p.ends prep.ends_selected)
          options.match_policy p.lifecycles in
      elim (List-cases c.outcome.pairs) [
        | inl e ↦ inl (rw (c.returns, correlate) (rw e refl))
        | inr (q, qs, e) ↦
            let size : 0 < length c.outcome.pairs = rw e (omega arith) in
            let not_empty : is_empty c.outcome.pairs ≡ false = rw e refl in
            let (r, summarized, sound) =
              summarize-IsSound S E (λ e h. stamped e h.0.0) (λ e h. stamped e h.0.0) f events
                options p c.outcome c.holds size (omega (arith, c.fewer, prep.fewer)) c.within in
            inr (
              r,
              rw (c.returns, correlate) (rw not_empty (rw summarized refl)),
              record {
                start_selector = prep.start_selector;
                end_selector = prep.end_selector;
                domain = p.clock_domain;
                start_parsed = prep.start_parsed;
                end_parsed = prep.end_parsed;
                supported = prep.supported;
                undropped = prep.undropped;
                sound = sound;
              },
            )
      ]

  -- For events whose timestamps are u64 values, so few that 99 times their number is below 2^64,
  -- `measure` does not panic: it returns an error, or a measurement. A measurement is returned
  -- only when both selectors parse, the policy supports them and no event was dropped; its
  -- evidence is pairs of given events, the start matched by the start selector, the end by the
  -- end selector, all on one clock group, each with the distance in time as its latency; its
  -- `matched` is the number of pairs, at least one and at most the wanted samples; and its
  -- statistics summarise exactly those latencies.
  pub measure-IsMeasurement :
      (events : List (Event V)) (options : MeasureOptions)
      → All P events
      → ((e : Event V) → P e → IsU64Stamped e)
      → 99 * length events < u64_mod
      → Returns options (measure as_str regex_new is_match f events options)
  unfolding measure
  measure-IsMeasurement events options all stamped few =
      elim (Result-cases (prepare as_str regex_new is_match events options)) [
        | inr (e, h) ↦ inl (e, rw (h, measure) refl)
        | inl (p, h) ↦
            let prep = prepare-IsPrepared as_str regex_new is_match P events options p all h in
            elim (correlate-IsMeasurement events options p stamped few prep) [
              | inl none_matched ↦ inl (no_matched_samples, rw (h, measure) none_matched)
              | inr (r, found, m) ↦ inr (r, rw (h, measure) found, m)
            ]
      ]
