-- ===== src/Correlator/Measure/Selected.antt =====
-- What `correlate_selected` of xprobe/correlator/src/lib.rs returns for each policy.
use xprobe.Prelude.{
  ℕ, ◌+◌, ◌≤◌, ◌≡◌, refl, inl, inr, ◌||◌, Option, none, some, List, arith, Bool-cases, unwrap_or,
  length, length-take, All,
}
use xprobe.Rust.Ord.{Ord, nat_ord, pair_ord, option_ord}
use xprobe.Rust.Words.{usize_max, abs_diff}
use xprobe.Protocol.Event.{Event}
use xprobe.Protocol.Measurement.{MatchPolicy}
use xprobe.Correlator.Pairs.{Pair, Outcome, key_ord, correlation_key, truncate}
use xprobe.Correlator.Policy.{LifecycleKinds}
use xprobe.Correlator.FirstAfter.{make_pair}
use xprobe.Correlator.FirstAfter.Matching.{
  IsU64Stamped, make_pair-IsCausal, correlate_first_after-All,
}
use xprobe.Correlator.FirstAfter.Accounting.{correlate_first_after-Decided}
use xprobe.Correlator.StreamOrder.{correlate_stream_order}
use xprobe.Correlator.StreamOrder.Matching.{correlate_stream_order-All}
use xprobe.Correlator.StackNested.Matching.{correlate_stack_nested-All}
use xprobe.Correlator.StackNested.Accounting.{correlate_stack_nested-Decided}
use xprobe.Correlator.Lifecycle.{
  correlate_lifecycle, correlate_thread_lifecycle, correlate_nvtx_lifecycle, thread_key,
}
use xprobe.Correlator.Lifecycle.Matching.{correlate_lifecycle-All}
use xprobe.Correlator.Exact.{correlate_exact}
use xprobe.Correlator.Exact.Accounting.{correlate_exact-Covers}
use xprobe.Correlator.Lifecycle.Accounting.{correlate_lifecycle-Accounted}
use xprobe.Correlator.StreamOrder.Accounting.{correlate_stream_order-Decided}
use xprobe.Correlator.Exact.Matching.{correlate_exact-All}
use xprobe.Correlator.Nearest.Accounting.{correlate_nearest-All}
use xprobe.Correlator.Measure.{correlate_selected}

-- A pair of a start and an end of two kinds, with the distance in time between them.
pub record IsMeasured {V : Type 0} (S E : Event V → Type 0) (p : Pair V) : Type 0 where
  pub from : S p.start
  pub to : E p.end
  pub distance : p.latency_ns ≡ abs_diff p.end.timestamp_ns p.start.timestamp_ns

-- An outcome is there, its pairs are measured, and it keeps the limit.
pub record Chosen {V : Type 0} (S E : Event V → Type 0) (limit : Option ℕ) (starts : ℕ)
    (r : Option (Outcome V)) : Type 0 where
  pub outcome : Outcome V
  pub returns : r ≡ some outcome
  pub within : (n : ℕ) → limit ≡ some n → length outcome.pairs ≤ n
  pub holds : All (IsMeasured S E) outcome.pairs
  pub fewer : length outcome.pairs ≤ starts

causal_distance : (s d e : ℕ) → s + d ≡ e → d ≡ abs_diff e s
unfolding abs_diff
causal_distance s d e h = ground arith

module _ {V : Type 0} where
  truncate_le :
      (limit : Option ℕ) (pairs : List (Pair V)) (n : ℕ)
      → limit ≡ some n
      → length (truncate limit pairs) ≤ n
  unfolding truncate
  truncate_le none pairs n h = cc
  truncate_le (some m) pairs n h = ground (arith, length-take m pairs)

  lifecycle_le :
      {K : Type 0} ⦃o : Ord K⦄ (key_of : Event V → Option K) (starts ends : List (Event V))
      (limit : Option ℕ) (n : ℕ)
      → limit ≡ some n
      → length (correlate_lifecycle key_of starts ends limit).pairs ≤ n
  unfolding correlate_lifecycle
  lifecycle_le key_of starts ends limit n h = truncate_le limit _ n h

  exact_le :
      (starts ends : List (Event V)) (limit : Option ℕ) (n : ℕ)
      → limit ≡ some n
      → length (correlate_exact starts ends limit).pairs ≤ n
  unfolding correlate_exact
  exact_le starts ends limit n h = truncate_le limit _ n h

  exact_fewer :
      (starts ends : List (Event V)) (limit : Option ℕ)
      → length (correlate_exact starts ends limit).pairs ≤ length starts
  exact_fewer starts ends none =
      let c = correlate_exact-Covers starts ends none in omega (arith, c.cut, c.starts_covered)
  exact_fewer starts ends (some n) =
      let c = correlate_exact-Covers starts ends (some n) in omega (arith, c.cut, c.starts_covered)

  stream_le :
      (starts ends : List (Event V)) (limit : Option ℕ) (n : ℕ)
      → limit ≡ some n
      → length (correlate_stream_order starts ends limit).pairs ≤ n
  unfolding correlate_stream_order
  stream_le starts ends limit n h = truncate_le limit _ n h

-- A bound by the limit, if there is one.
by_limit :
    {k : ℕ} (m : ℕ) (limit : Option ℕ) → k ≤ unwrap_or limit m → (n : ℕ) → limit ≡ some n → k ≤ n
by_limit m none h n e = cc
by_limit m (some l) h n e = ground arith

module _ {V : Type 0} (S E : Event V → Type 0) (starts ends : List (Event V)) (limit : Option ℕ)
    (fits : length starts ≤ usize_max) (all_starts : All S starts)
    (all_ends : All (λ e. E e × IsU64Stamped e) ends) where
  abbrev Stamped : Event V → Type 0
  Stamped e = E e × IsU64Stamped e

  from_pair :
      (s e : Event V)
      → S s
      → Stamped e
      → s.timestamp_ns ≤ e.timestamp_ns
      → IsMeasured S E (make_pair s e)
  unfolding make_pair
  from_pair s e h k le = record {
    from = h;
    to = k.0;
    distance = causal_distance s.timestamp_ns _ e.timestamp_ns (make_pair-IsCausal s e le k.1);
  }

  from_latency :
      (s e : Event V) (d : ℕ)
      → S s
      → Stamped e
      → s.timestamp_ns + d ≡ e.timestamp_ns
      → IsMeasured S E (record { start = s; end = e; latency_ns = d })
  from_latency s e d h k c = record {
    from = h;
    to = k.0;
    distance = causal_distance s.timestamp_ns d e.timestamp_ns c;
  }

  lifecycle-Chosen :
      {K : Type 0} ⦃o : Ord K⦄ (key_of : Event V → Option K)
      → Chosen S E limit (length starts) (some (correlate_lifecycle key_of starts ends limit))
  lifecycle-Chosen key_of = record {
    outcome = correlate_lifecycle key_of starts ends limit;
    returns = refl;
    within = lifecycle_le key_of starts ends limit;
    holds =
        correlate_lifecycle-All key_of S Stamped (IsMeasured S E)
          (λ key s e d hs he _ _ c. from_latency s e d hs he c) starts ends limit all_starts
          all_ends;
    fewer =
        omega (arith, (correlate_lifecycle-Accounted key_of starts ends limit fits).some_starts);
  }

  exact-Chosen : Chosen S E limit (length starts) (some (correlate_exact starts ends limit))
  exact-Chosen = record {
    outcome = correlate_exact starts ends limit;
    returns = refl;
    within = exact_le starts ends limit;
    holds =
        correlate_exact-All S Stamped (IsMeasured S E)
          (λ key s e d hs he c. from_latency s e d hs.1 he.1 c) starts ends limit all_starts
          all_ends;
    fewer = exact_fewer starts ends limit;
  }

  -- For every policy and all lifecycle kinds, with ends whose timestamps are u64 values and
  -- starts that fit a slice, `correlate_selected` returns pairs that join one of the starts to
  -- one of the ends with the distance in time as latency, no more of them than the limit or the
  -- starts.
  pub correlate_selected-Chosen :
      (policy : MatchPolicy) (l : LifecycleKinds)
      → Chosen S E limit (length starts) (correlate_selected starts ends policy limit l)
  unfolding correlate_selected correlate_thread_lifecycle correlate_nvtx_lifecycle
  correlate_selected-Chosen MatchPolicy.exact l = elim (Bool-cases (l.syscall || l.python_gc)) [
    | inl e ↦ rw e (lifecycle-Chosen (thread_key {V = V}))
    | inr e ↦ rw e (elim (Bool-cases l.nvtx) [
      | inl n ↦ rw n (lifecycle-Chosen (correlation_key {V = V}))
      | inr n ↦ rw n exact-Chosen
    ])
  ]
  correlate_selected-Chosen MatchPolicy.first_after l = record {
    outcome = _;
    returns = refl;
    within = by_limit _ limit (correlate_first_after-Decided starts ends limit).accounted.within;
    fewer = omega (arith, (correlate_first_after-Decided starts ends limit).accounted.some_starts);
    holds =
        correlate_first_after-All S Stamped (IsMeasured S E) from_pair starts ends limit all_starts
          all_ends;
  }
  correlate_selected-Chosen MatchPolicy.nearest l =
      let p =
        correlate_nearest-All S Stamped (IsMeasured S E)
          (λ s e h k. record { from = h; to = k.0; distance = refl }) starts ends limit all_starts
          all_ends in
      record {
        outcome = p.outcome;
        returns = p.returns;
        within = by_limit _ limit p.decided.accounted.within;
        holds = p.holds;
        fewer = omega (arith, p.decided.accounted.some_starts);
      }
  correlate_selected-Chosen MatchPolicy.stack_nested l = record {
    outcome = _;
    returns = refl;
    within = by_limit _ limit (correlate_stack_nested-Decided starts ends limit).accounted.within;
    fewer = omega (arith, (correlate_stack_nested-Decided starts ends limit).accounted.some_starts);
    holds =
        correlate_stack_nested-All S Stamped (IsMeasured S E) (λ s e h k _ le. from_pair s e h k le)
          starts ends limit all_starts all_ends;
  }
  correlate_selected-Chosen MatchPolicy.stream_order l = record {
    outcome = _;
    returns = refl;
    within = stream_le starts ends limit;
    fewer =
        omega
          (arith, (correlate_stream_order-Decided starts ends limit fits).accounted.some_starts);
    holds =
        correlate_stream_order-All S Stamped (IsMeasured S E)
          (λ key s e hs he le. from_pair s e hs.1 he.1 le) starts ends limit all_starts all_ends;
  }
