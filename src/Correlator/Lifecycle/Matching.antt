-- ===== src/Correlator/Lifecycle/Matching.antt =====
-- Which events the lifecycle correlation pairs.
use native.Mathlib.Nat.{le_trans}
use xprobe.Prelude.{
  ℕ, ◌+◌, ◌≤◌, ◌≡◌, refl, inl, inr, true, false, Option, some, List, [], ◌∷◌, arith, ◌==◌,
  Bool-cases, Option-cases, All, All-append, All-imp, All-of_forall, Ordered,
}
use xprobe.Rust.Ord.{Ord, nat_ord, pair_ord, option_ord}
use xprobe.Rust.Words.{checked_sub, checked_sub_exact}
use xprobe.Rust.BTreeMap.{BTreeMap, get, All-insert, All-get, All-remove}
use xprobe.Protocol.Event.{Event}
use xprobe.Correlator.Pairs.{Pair, key_ord}
use xprobe.Correlator.Accounting.{All-truncate}
use xprobe.Correlator.FirstAfter.Matching.{IsCausal}
use xprobe.Correlator.Timeline.{Mark, sequence_timeline}
use xprobe.Correlator.Timeline.Order.{Earlier, sequence_timeline-Ordered, All-sequence_timeline}
use xprobe.Correlator.Lifecycle.{
  Pending, open_range, close_range, lifecycle_step, lifecycle_loop, correlate_lifecycle,
}

-- A range that is open at a time, under its key.
module _ {K V : Type 0} ⦃o : Ord K⦄ (key_of : Event V → Option K) (S E : Event V → Type 0) where
  abbrev pub Open : ℕ → K × Event V → Type 0
  Open now (key, event) = (key_of event ≡ some key) × S event × (event.timestamp_ns ≤ now)

  -- A mark of a start, or of an end.
  pub record Marks (m : Mark V) : Type 0 where
    pub stamped : m.timestamp ≡ m.event.timestamp_ns
    pub opens : (m.boundary == 0) ≡ true → S m.event
    pub closes : (m.boundary == 0) ≡ false → E m.event

  pub Open-later :
      (now later : ℕ)
      → now ≤ later
      → (pending : BTreeMap K (Event V)) → All (Open now) pending
      → All (Open later) pending
  Open-later now later h =
      All-imp (λ (g : K × Event V) (k : Open now g). (k.0, k.1, le_trans k.2 h))

  close_range-pending :
      (now : ℕ) (key : K) (event : Event V) (s : Pending K V)
      → All (Open now) s.pending
      → All (Open now) (close_range key event s).pending
  unfolding close_range
  close_range-pending now key event s h = elim (Option-cases (get key s.pending)) [
    | inl e ↦ rw (e, close_range) h
    | inr (start, e) ↦ elim (Option-cases (checked_sub event.timestamp_ns start.timestamp_ns)) [
      | inl n ↦ rw (e, n, close_range) (All-remove (Open now) key s.pending h)
      | inr (d, n) ↦ rw (e, n, close_range) (All-remove (Open now) key s.pending h)
    ]
  ]

  pub lifecycle_step-pending :
      (now : ℕ) (s : Pending K V) (m : Mark V)
      → Marks m
      → now ≤ m.timestamp
      → All (Open now) s.pending
      → All (Open m.timestamp) (lifecycle_step key_of s m).pending
  unfolding lifecycle_step
  lifecycle_step-pending now s m k h o =
      let open_now = Open-later now m.timestamp h s.pending o in
      elim (Bool-cases (m.boundary == 0)) [
        | inl start ↦ elim (Option-cases (key_of m.event)) [
          | inl e ↦ rw (e, start, lifecycle_step) open_now
          | inr (key, e) ↦
              rw (e, start, lifecycle_step)
                (unfold open_range in
                  All-insert (Open m.timestamp) key m.event s.pending
                    (e, k.opens start, omega (arith, k.stamped)) open_now)
        ]
        | inr end ↦ elim (Option-cases (key_of m.event)) [
          | inl e ↦ rw (e, end, lifecycle_step) open_now
          | inr (key, e) ↦
              rw (e, end, lifecycle_step) (close_range-pending m.timestamp key m.event s open_now)
        ]
      ]

  pub timeline-Marks :
      (starts ends : List (Event V))
      → All S starts
      → All E ends
      → All Marks (sequence_timeline starts ends)
  timeline-Marks starts ends h k =
      All-sequence_timeline Marks starts ends
        (All-imp
          (λ (e : Event V) (x : S e). record { stamped = refl; opens = λ o. x; closes = λ o. cc })
          starts h)
        (All-imp
          (λ (e : Event V) (x : E e). record { stamped = refl; opens = λ o. cc; closes = λ o. x })
          ends k)

-- Whatever holds of each start and each later end of its key holds of the pairs.
module _ {ℓ} {K V : Type 0} ⦃o : Ord K⦄ (key_of : Event V → Option K) (S E : Event V → Type 0)
    (P : Pair V → Type ℓ)
    (pairing : (key : K) (s e : Event V) (latency : ℕ)
      → S s
      → E e
      → key_of s ≡ some key
      → key_of e ≡ some key
      → s.timestamp_ns + latency ≡ e.timestamp_ns
      → P (record { start = s; end = e; latency_ns = latency })) where
  close_range-pairs :
      (now : ℕ) (key : K) (event : Event V) (s : Pending K V)
      → key_of event ≡ some key
      → E event
      → All (Open key_of S E now) s.pending
      → All P s.pairs
      → All P (close_range key event s).pairs
  unfolding close_range
  close_range-pairs now key event s c x h p = elim (Option-cases (get key s.pending)) [
    | inl e ↦ rw (e, close_range) p
    | inr (start, e) ↦ elim (Option-cases (checked_sub event.timestamp_ns start.timestamp_ns)) [
      | inl n ↦ rw (e, n, close_range) p
      | inr (d, n) ↦
          let opened = All-get (Open key_of S E now) key s.pending h e in
          let exact = checked_sub_exact event.timestamp_ns start.timestamp_ns n in
          rw (e, n, close_range)
            (All-append P s.pairs _ p (pairing key start event d opened.1 x opened.0 c exact, tt))
    ]
  ]

  lifecycle_step-pairs :
      (now : ℕ) (s : Pending K V) (m : Mark V)
      → Marks key_of S E m
      → All (Open key_of S E now) s.pending
      → All P s.pairs
      → All P (lifecycle_step key_of s m).pairs
  unfolding lifecycle_step
  lifecycle_step-pairs now s m k o p = elim (Bool-cases (m.boundary == 0)) [
    | inl start ↦ elim (Option-cases (key_of m.event)) [
      | inl e ↦ rw (e, start, lifecycle_step) p
      | inr (key, e) ↦ rw (e, start, lifecycle_step) p
    ]
    | inr end ↦ elim (Option-cases (key_of m.event)) [
      | inl e ↦ rw (e, end, lifecycle_step) p
      | inr (key, e) ↦
          rw (e, end, lifecycle_step) (close_range-pairs now key m.event s e (k.closes end) o p)
    ]
  ]

  lifecycle_loop-All :
      (now : ℕ) (timeline : List (Mark V)) (s : Pending K V)
      → All (Marks key_of S E) timeline
      → Ordered Earlier timeline
      → All (λ m. now ≤ m.timestamp) timeline
      → All (Open key_of S E now) s.pending
      → All P s.pairs
      → All P (lifecycle_loop key_of timeline s).pairs
  unfolding lifecycle_loop
  lifecycle_loop-All now [] s k sorted h o p = p
  lifecycle_loop-All now (m ∷ timeline) s k sorted h o p =
      lifecycle_loop-All m.timestamp timeline (lifecycle_step key_of s m) k.1 sorted.1 sorted.0
        (lifecycle_step-pending key_of S E now s m k.0 h.0 o) (lifecycle_step-pairs now s m k.0 o p)

  pub correlate_lifecycle-All :
      (starts ends : List (Event V)) (limit : Option ℕ)
      → All S starts
      → All E ends
      → All P (correlate_lifecycle key_of starts ends limit).pairs
  unfolding correlate_lifecycle
  correlate_lifecycle-All starts ends limit h k =
      let timeline = sequence_timeline starts ends in
      All-truncate P limit _ (
        lifecycle_loop-All 0 timeline _ (timeline-Marks key_of S E starts ends h k)
          (sequence_timeline-Ordered starts ends)
          (All-of_forall (λ m. 0 ≤ m.timestamp) (λ m. omega arith) timeline) tt tt)

-- Both ends of a pair have the key, and the latency is the time between them.
pub record IsLifecycle {K V : Type 0} (key_of : Event V → Option K) (p : Pair V) : Type 0 where
  pub key : K
  pub start_key : key_of p.start ≡ some key
  pub end_key : key_of p.end ≡ some key
  pub causal : IsCausal p

-- Whatever the key of an event is, the two events of each pair of the lifecycle matching have the
-- same key, and its latency is exactly the time from the start to the end.
pub correlate_lifecycle-IsLifecycle :
    {K V : Type 0} ⦃o : Ord K⦄ (key_of : Event V → Option K) (starts ends : List (Event V))
    (limit : Option ℕ)
    → All (IsLifecycle key_of) (correlate_lifecycle key_of starts ends limit).pairs
correlate_lifecycle-IsLifecycle key_of starts ends limit =
    correlate_lifecycle-All key_of (λ s. Unit) (λ e. Unit) (IsLifecycle key_of)
      (λ key s e d _ _ hs he c. record { key = key; start_key = hs; end_key = he; causal = c })
      starts ends limit (All-of_forall (λ s. Unit) (λ s. tt) starts)
      (All-of_forall (λ s. Unit) (λ s. tt) ends)
