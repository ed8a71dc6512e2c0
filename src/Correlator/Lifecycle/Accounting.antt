-- ===== src/Correlator/Lifecycle/Accounting.antt =====
-- Where every event goes in the lifecycle correlation.
use xprobe.Prelude.{
  ℕ, ◌+◌, ◌≤◌, ◌≡◌, inl, inr, Option, some, List, [], ◌∷◌, arith, ◌==◌, Bool-cases, Option-cases,
  unwrap_or, length, count, length-append, count-append, All, All-of_forall, Ordered,
}
use xprobe.Rust.Ord.{Ord, nat_ord, pair_ord, option_ord}
use xprobe.Rust.Words.{usize_max, checked_sub-some}
use xprobe.Rust.BTreeMap.{get, length-insert, length-remove, All-get}
use xprobe.Protocol.Event.{Event}
use xprobe.Correlator.Pairs.{key_ord}
use xprobe.Correlator.Accounting.{Accounted, truncate-Accounted}
use xprobe.Correlator.Timeline.{Mark, sequence_timeline}
use xprobe.Correlator.Timeline.Order.{
  Earlier, is_start, is_end, sequence_timeline-Ordered, sequence_timeline_starts,
  sequence_timeline_ends,
}
use xprobe.Correlator.Lifecycle.{
  Pending, open_range, close_range, lifecycle_step, lifecycle_loop, correlate_lifecycle,
}
use xprobe.Correlator.Lifecycle.Matching.{Open, Marks, lifecycle_step-pending, timeline-Marks}

-- With the starts and ends that have been seen.
record Balance {K V : Type 0} (starts ends : ℕ) (s : Pending K V) : Type 0 where
  starts_seen : length s.pairs + s.unmatched_start + length s.pending + s.ambiguous ≡ starts
  ends_seen : length s.pairs + s.unmatched_end ≡ ends

module _ {K V : Type 0} ⦃o : Ord K⦄ where
  open_range-Balance :
      (key : K) (event : Event V) (s : Pending K V) (starts ends : ℕ)
      → Balance starts ends s
      → Balance (starts + 1) ends (open_range key event s)
  unfolding open_range
  open_range-Balance key event s starts ends b =
      ground (arith, length-insert key event s.pending, b.starts_seen, b.ends_seen)

  -- The start is not later than the end, so the subtraction succeeds.
  close_range-Balance :
      (key : K) (event : Event V) (s : Pending K V) (starts ends : ℕ)
      → ((start : Event V)
          → get key s.pending ≡ some start
          → start.timestamp_ns ≤ event.timestamp_ns)
      → Balance starts ends s
      → Balance starts (ends + 1) (close_range key event s)
  unfolding close_range
  close_range-Balance key event s starts ends sooner b = elim (Option-cases (get key s.pending)) [
    | inl e ↦
        rw (e, close_range)
          (record { starts_seen = b.starts_seen; ends_seen = omega (arith, b.ends_seen) })
    | inr (start, e) ↦
        let (d, exact) = checked_sub-some event.timestamp_ns start.timestamp_ns (sooner start e) in
        let grown =
          length-append s.pairs (record { start = start; end = event; latency_ns = d } ∷ []) in
        rw (e, exact, close_range)
          (record {
            starts_seen = omega (arith, b.starts_seen, grown, length-remove key s.pending e);
            ends_seen = omega (arith, b.ends_seen, grown);
          })
  ]

module _ {K V : Type 0} ⦃o : Ord K⦄ (key_of : Event V → Option K) where
  abbrev AnyOpen : ℕ → K × Event V → Type 0
  AnyOpen = Open key_of (λ s. Unit) (λ e. Unit)

  abbrev AnyMarks : Mark V → Type 0
  AnyMarks = Marks key_of (λ s. Unit) (λ e. Unit)

  -- A range that is closed was opened no later.
  opened_sooner :
      (now : ℕ) (s : Pending K V) (m : Mark V) (key : K) (start : Event V)
      → AnyMarks m
      → now ≤ m.timestamp
      → All (AnyOpen now) s.pending
      → get key s.pending ≡ some start
      → start.timestamp_ns ≤ m.event.timestamp_ns
  opened_sooner now s m key start k h o g =
      let opened = All-get (AnyOpen now) key s.pending o g in omega (arith, opened.2, k.stamped, h)

  lifecycle_step-Balance :
      (now : ℕ) (s : Pending K V) (m : Mark V) (starts ends : ℕ)
      → AnyMarks m
      → now ≤ m.timestamp
      → All (AnyOpen now) s.pending
      → Balance starts ends s
      → Balance
          (starts + count is_start (m ∷ []))
          (ends + count is_end (m ∷ []))
          (lifecycle_step key_of s m)
  unfolding lifecycle_step
  lifecycle_step-Balance now s m starts ends k h o b = elim (Bool-cases (m.boundary == 0)) [
    | inl start ↦ elim (Option-cases (key_of m.event)) [
      | inl e ↦ rw (e, start, lifecycle_step) (omega (arith, b.starts_seen, b.ends_seen))
      | inr (key, e) ↦
          rw (e, start, lifecycle_step)
            (omega (arith, open_range-Balance key m.event s starts ends b))
    ]
    | inr end ↦ elim (Option-cases (key_of m.event)) [
      | inl e ↦ rw (e, end, lifecycle_step) (omega (arith, b.starts_seen, b.ends_seen))
      | inr (key, e) ↦
          let closed =
            close_range-Balance key m.event s starts ends
              (λ start g. opened_sooner now s m key start k h o g) b in
          rw (e, end, lifecycle_step) (omega (arith, closed))
    ]
  ]

  lifecycle_loop-Balance :
      (now : ℕ) (timeline : List (Mark V)) (s : Pending K V) (starts ends : ℕ)
      → All AnyMarks timeline
      → Ordered Earlier timeline
      → All (λ m. now ≤ m.timestamp) timeline
      → All (AnyOpen now) s.pending
      → Balance starts ends s
      → Balance
          (starts + count is_start timeline)
          (ends + count is_end timeline)
          (lifecycle_loop key_of timeline s)
  unfolding lifecycle_loop
  lifecycle_loop-Balance now [] s starts ends k sorted h o b = omega (arith, b)
  lifecycle_loop-Balance now (m ∷ timeline) s starts ends k sorted h o b =
      let n = count is_start (m ∷ []) in
      let n' = count is_end (m ∷ []) in
      omega (
        arith,
        count-append is_start (m ∷ []) timeline,
        count-append is_end (m ∷ []) timeline,
        lifecycle_loop-Balance m.timestamp timeline (lifecycle_step key_of s m) (starts + n)
            (ends + n') k.1 sorted.1 sorted.0
            (lifecycle_step-pending key_of (λ s. Unit) (λ e. Unit) now s m k.0 h.0 o)
            (lifecycle_step-Balance now s m starts ends k.0 h.0 o b),
      )

  -- For starts that fit a slice, at most the limit is paired by the lifecycle matching and
  -- nothing is counted twice; below the limit every end is in a pair or counted as unmatched, and
  -- every start is in a pair, counted as unmatched, or counted as ambiguous.
  pub correlate_lifecycle-Accounted :
      (starts ends : List (Event V)) (limit : Option ℕ)
      → length starts ≤ usize_max
      → Accounted
          (unwrap_or limit usize_max)
          (length starts)
          (length ends)
          (correlate_lifecycle key_of starts ends limit)
  unfolding correlate_lifecycle
  correlate_lifecycle-Accounted starts ends limit h =
      let timeline = sequence_timeline starts ends in
      let empty : Pending K V = record {
        pending = [];
        pairs = [];
        unmatched_start = 0;
        unmatched_end = 0;
        ambiguous = 0;
      } in
      let s = lifecycle_loop key_of timeline empty in
      let done =
        lifecycle_loop-Balance 0 timeline empty 0 0
          (timeline-Marks key_of (λ s. Unit) (λ e. Unit) starts ends
            (All-of_forall (λ s. Unit) (λ s. tt) starts) (All-of_forall (λ s. Unit) (λ s. tt) ends))
          (sequence_timeline-Ordered starts ends)
          (All-of_forall (λ m. 0 ≤ m.timestamp) (λ m. omega arith) timeline) tt (omega arith) in
      let n = sequence_timeline_starts starts ends in
      let n' = sequence_timeline_ends starts ends in
      truncate-Accounted limit s.pairs (s.unmatched_start + length s.pending) s.unmatched_end
        s.ambiguous (length starts) (length ends) (omega (arith, done, n)) (omega (arith, done, n'))
        h
