-- ===== src/Correlator/StackNested/Matching.antt =====
-- Which events `correlate_stack_nested` pairs.
use native.Mathlib.Nat.{le_trans}
use xprobe.Prelude.{
  ap, ℕ, ◌≤◌, ◌≡◌, refl, subst, inl, inr, true, false, Option, some, List, [], ◌∷◌, arith, ltb,
  ◌==◌, Bool-cases, Option-cases, unwrap_or, and_then, length, All, All-append, All-imp,
  All-of_forall, Ordered,
}
use xprobe.Rust.Ord.{nat_ord, pair_ord}
use xprobe.Rust.Words.{usize_max}
use xprobe.Rust.BTreeMap.{BTreeMap, get, All-insert, All-get}
use xprobe.Rust.BTreeMap.Groups.{pop, AllIn, All-push, All-pop}
use xprobe.Rust.Sort.{All-sort_by}
use xprobe.Protocol.Event.{Event}
use xprobe.Correlator.Pairs.{Pair, sort_pairs}
use xprobe.Correlator.FirstAfter.{make_pair}
use xprobe.Correlator.FirstAfter.Matching.{IsU64Stamped, IsCausal, make_pair-IsCausal}
use xprobe.Correlator.Timeline.{Mark, boundary_timeline}
use xprobe.Correlator.Timeline.Order.{Earlier, boundary_timeline-Ordered, All-boundary_timeline}
use xprobe.Correlator.StackNested.{
  Stacks, thread_of, innermost, stack_step, stack_loop, correlate_stack_nested,
}

-- Whatever holds of each start and each later end on its thread holds of the pairs.
module _ {ℓ} {V : Type 0} (S E : Event V → Type 0) (P : Pair V → Type ℓ)
    (pairing : (s e : Event V)
      → S s
      → E e
      → thread_of s ≡ thread_of e
      → s.timestamp_ns ≤ e.timestamp_ns
      → P (make_pair s e)) where
  -- A start that is open at a time.
  abbrev Open : ℕ → ℕ × ℕ → Event V → Type 0
  Open now key event = (thread_of event ≡ key) × S event × (event.timestamp_ns ≤ now)

  -- A mark of a start, or of an end.
  record Marks (m : Mark V) : Type 0 where
    stamped : m.timestamp ≡ m.event.timestamp_ns
    opens : (m.boundary == 0) ≡ true → S m.event
    closes : (m.boundary == 0) ≡ false → E m.event

  Open-later :
      (now later : ℕ)
      → now ≤ later
      → (stacks : BTreeMap (ℕ × ℕ) (List (Event V))) → All (AllIn (Open now)) stacks
      → All (AllIn (Open later)) stacks
  Open-later now later h stacks =
      All-imp
        (λ (g : (ℕ × ℕ) × List (Event V)) (k : AllIn (Open now) g).
          All-imp (λ (e : Event V) (o : Open now g.0 e). (o.0, o.1, le_trans o.2 h)) g.1 k)
        stacks

  innermost-Open :
      (now : ℕ) (key : ℕ × ℕ) (s : Stacks V) {start : Event V} {below : List (Event V)}
      → All (AllIn (Open now)) s.stacks
      → innermost s key ≡ some (start, below)
      → Open now key start × All (Open now key) below
  unfolding innermost
  innermost-Open now key s {start} {below} h e = elim (Option-cases (get key s.stacks)) [
    | inl n ↦ cc (subst (λ o. and_then o pop ≡ some (start, below)) n e)
    | inr (stack, n) ↦
        All-pop (Open now key) stack (All-get (AllIn (Open now)) key s.stacks h n)
          (subst (λ o. and_then o pop ≡ some (start, below)) n e)
  ]

  stack_step-stacks :
      (limit now : ℕ) (s : Stacks V) (m : Mark V)
      → Marks m
      → now ≤ m.timestamp
      → All (AllIn (Open now)) s.stacks
      → All (AllIn (Open m.timestamp)) (stack_step limit s m).stacks
  unfolding stack_step
  stack_step-stacks limit now s m k h o =
      let key = thread_of m.event in
      let open_now = Open-later now m.timestamp h s.stacks o in
      elim (Bool-cases (m.boundary == 0)) [
        | inl start ↦ rw start (
            All-push (Open m.timestamp) key m.event s.stacks
              (refl, k.opens start, omega (arith, k.stamped)) open_now)
        | inr end ↦ elim (Option-cases (innermost s key)) [
          | inl e ↦ rw (end, e, stack_step) open_now
          | inr ((start, below), e) ↦
              rw (end, e, stack_step)
                (All-insert (AllIn (Open m.timestamp)) key below s.stacks
                  (innermost-Open m.timestamp key s open_now e).1 open_now)
        ]
      ]

  stack_step-pairs :
      (limit now : ℕ) (s : Stacks V) (m : Mark V)
      → Marks m
      → now ≤ m.timestamp
      → All (AllIn (Open now)) s.stacks
      → All P s.pairs
      → All P (stack_step limit s m).pairs
  unfolding stack_step
  stack_step-pairs limit now s m k h o p =
      let key = thread_of m.event in
      elim (Bool-cases (m.boundary == 0)) [
        | inl start ↦ rw start p
        | inr end ↦ elim (Option-cases (innermost s key)) [
          | inl e ↦ rw (end, e, stack_step) p
          | inr ((start, below), e) ↦
              let opened = (innermost-Open now key s o e).0 in
              let pair =
                pairing start m.event opened.1 (k.closes end) opened.0
                  (omega (arith, opened.2, h, k.stamped)) in
              rw (end, e, stack_step)
                (elim (Bool-cases (ltb (length s.pairs) limit)) [
                  | inl room ↦ rw room (All-append P s.pairs _ p (pair, tt))
                  | inr full ↦ rw full p
                ])
        ]
      ]

  stack_loop-All :
      (limit now : ℕ) (timeline : List (Mark V)) (s : Stacks V)
      → All Marks timeline
      → Ordered Earlier timeline
      → All (λ m. now ≤ m.timestamp) timeline
      → All (AllIn (Open now)) s.stacks
      → All P s.pairs
      → All P (stack_loop limit timeline s).pairs
  unfolding stack_loop
  stack_loop-All limit now [] s k sorted h o p = p
  stack_loop-All limit now (m ∷ timeline) s k sorted h o p =
      stack_loop-All limit m.timestamp timeline (stack_step limit s m) k.1 sorted.1 sorted.0
        (stack_step-stacks limit now s m k.0 h.0 o) (stack_step-pairs limit now s m k.0 h.0 o p)

  pub correlate_stack_nested-All :
      (starts ends : List (Event V)) (limit : Option ℕ)
      → All S starts
      → All E ends
      → All P (correlate_stack_nested starts ends limit).pairs
  unfolding correlate_stack_nested sort_pairs
  correlate_stack_nested-All starts ends limit h k =
      let timeline = boundary_timeline starts ends in
      All-sort_by P _ _ (
        stack_loop-All (unwrap_or limit usize_max) 0 timeline _
          (All-boundary_timeline Marks starts ends
            (All-imp
              (λ (e : Event V) (x : S e). record {
                stamped = refl;
                opens = λ o. x;
                closes = λ o. cc;
              })
              starts h)
            (All-imp
              (λ (e : Event V) (x : E e). record {
                stamped = refl;
                opens = λ o. cc;
                closes = λ o. x;
              })
              ends k))
          (boundary_timeline-Ordered starts ends)
          (All-of_forall (λ m. 0 ≤ m.timestamp) (λ m. omega arith) timeline) tt tt)

module _ {V : Type 0} where
  -- Both ends of a pair were recorded on one thread, in order of time, and the latency is the time
  -- between them.
  pub record IsOnThread (p : Pair V) : Type 0 where
    pub same_process : p.start.pid ≡ p.end.pid
    pub same_thread : p.start.tid ≡ p.end.tid
    pub causal : IsCausal p

  -- When the timestamps of the ends are u64 values, the two events of each pair of
  -- `correlate_stack_nested` are of the same process and thread, and its latency is exactly the
  -- time from the start to the end, which is therefore not before it.
  pub correlate_stack_nested-IsOnThread :
      (starts ends : List (Event V)) (limit : Option ℕ)
      → All IsU64Stamped ends
      → All IsOnThread (correlate_stack_nested starts ends limit).pairs
  correlate_stack_nested-IsOnThread starts ends limit =
      correlate_stack_nested-All (λ s. Unit) IsU64Stamped IsOnThread
        (λ s e _ u t h.
          unfold make_pair in
          record {
            same_process = ap (λ x. x.0) t;
            same_thread = ap (λ x. x.1) t;
            causal = make_pair-IsCausal s e h u;
          })
        starts ends limit (All-of_forall (λ s. Unit) (λ s. tt) starts)
