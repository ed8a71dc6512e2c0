-- ===== src/Correlator/StackNested/Nesting.antt =====
-- The loop of `correlate_stack_nested` of xprobe/correlator/src/lib.rs and the nesting of its pairs.
use xprobe.Prelude.{
  ℕ, ◌≤◌, ◌≡◌, refl, sym, ◌∙◌, subst, inl, inr, Bool, true, false, Option, some, List, [], ◌∷◌,
  ◌++◌, arith, ltb, ◌==◌, if◌then◌else◌, Bool-cases, Option-cases, unwrap_or, and_then, length, All,
  All-append, All-imp, All-of_forall, All-both, Ordered, Ordered-last, Ordered-of_last, All-if,
  All-append_left, All-append_right,
}
use xprobe.Rust.Ord.{nat_ord, pair_ord}
use xprobe.Rust.Words.{usize_max}
use xprobe.Rust.Sort.{All-sort_by}
use xprobe.Rust.BTreeMap.{get, insert}
use xprobe.Rust.BTreeMap.Groups.{push, pop, append-pop, group_at, group_at-insert}
use xprobe.Protocol.Event.{Event}
use xprobe.Correlator.Pairs.{Pair, sort_pairs}
use xprobe.Correlator.Timeline.{Mark, boundary_timeline}
use xprobe.Correlator.Timeline.Order.{
  Earlier, IsMark, All-boundary_timeline, boundary_timeline-Ordered,
}
use xprobe.Correlator.FirstAfter.{make_pair}
use xprobe.Correlator.StackNested.{
  Stacks, thread_of, innermost, stack_step, stack_loop, correlate_stack_nested,
}
use xprobe.Correlator.StackNested.NonCrossing.{
  NonCrossing, AllNonCrossing, InTime, OpenIn, NonCrossing-last, closing-NonCrossing, OpenIn-last,
}

module _ {V : Type 0} where
  record Nested (now : ℕ) (s : Stacks V) : Type 0 where
    closed : All (λ q. q.end.timestamp_ns ≤ now) s.pairs
    non_crossing : AllNonCrossing s.pairs
    open_at : (key : ℕ × ℕ) → All (OpenIn now s.pairs key) (group_at key s.stacks)
    stacked : (key : ℕ × ℕ) → Ordered InTime (group_at key s.stacks)

  -- Later, what was open is still open.
  Nested-later : (now later : ℕ) (s : Stacks V) → now ≤ later → Nested now s → Nested later s
  Nested-later now later s h n = record {
    closed = All-imp (λ (q : Pair V) (k : q.end.timestamp_ns ≤ now). omega arith) s.pairs n.closed;
    non_crossing = n.non_crossing;
    open_at = λ key.
        All-imp
          (λ e k. record {
            on_thread = k.on_thread;
            opened = omega (arith, k.opened);
            clear = k.clear;
          })
          (group_at key s.stacks) (n.open_at key);
    stacked = n.stacked;
  }

  -- What a stack has to satisfy.
  abbrev IsStack : ℕ → List (Pair V) → ℕ × ℕ → List (Event V) → Type 0
  IsStack now pairs key g = All (OpenIn now pairs key) g × Ordered InTime g

  -- A start is pushed.
  opening-Nested :
      (s : Stacks V) (e : Event V)
      → Nested e.timestamp_ns s
      → Nested e.timestamp_ns (record s { stacks = push (thread_of e) e s.stacks })
  unfolding push group_at
  opening-Nested s e n =
      let key = thread_of e in
      let now = e.timestamp_ns in
      let old = group_at key s.stacks in
      let opened : OpenIn now s.pairs key e = record {
        on_thread = refl;
        opened = omega arith;
        clear = All-imp (λ q k _. inl k) s.pairs n.closed;
      } in
      let stack : IsStack now s.pairs key (old ++ e ∷ []) = (
        All-append (OpenIn now s.pairs key) old (e ∷ []) (n.open_at key) (opened, tt),
        Ordered-last InTime old e (n.stacked key) (All-imp (λ b k. k.opened) old (n.open_at key)),
      ) in
      let all_stacks =
        group_at-insert (IsStack now s.pairs) key (old ++ e ∷ []) s.stacks stack
          (λ j. (n.open_at j, n.stacked j)) in
      record {
        closed = n.closed;
        non_crossing = n.non_crossing;
        open_at = λ j. (all_stacks j).0;
        stacked = λ j. (all_stacks j).1;
      }

  innermost-group_at :
      (s : Stacks V) (key : ℕ × ℕ) {start : Event V} {below : List (Event V)}
      → innermost s key ≡ some (start, below)
      → below ++ start ∷ [] ≡ group_at key s.stacks
  unfolding innermost group_at
  innermost-group_at s key {start} {below} e = elim (Option-cases (get key s.stacks)) [
    | inl n ↦ cc (subst (λ o. and_then o pop ≡ some (start, below)) n e)
    | inr (g, n) ↦ rw n (
        append-pop g {x = start} {ys = below}
          (subst (λ o. and_then o pop ≡ some (start, below)) n e))
  ]

  -- The stack of an end: its start on the top, and what is under it.
  record Top (now : ℕ) (s : Stacks V) (key : ℕ × ℕ) (start : Event V) (below : List (Event V))
      : Type 0 where
    top : OpenIn now s.pairs key start
    under : IsStack now s.pairs key below
    older : All (λ b. b.timestamp_ns ≤ start.timestamp_ns) below
    none_newer : All (λ b. b.timestamp_ns ≤ start.timestamp_ns) (group_at key s.stacks)

  innermost-Top :
      (now : ℕ) (s : Stacks V) (key : ℕ × ℕ) {start : Event V} {below : List (Event V)}
      → Nested now s
      → innermost s key ≡ some (start, below)
      → Top now s key start below
  innermost-Top now s key {start} {below} n e =
      let whole = innermost-group_at s key {start = start} {below = below} e in
      let opens = subst (All (OpenIn now s.pairs key)) (sym whole) (n.open_at key) in
      let ordered =
        Ordered-of_last InTime below start (subst (Ordered InTime) (sym whole) (n.stacked key)) in
      record {
        top = (All-append_right (OpenIn now s.pairs key) below (start ∷ []) opens).0;
        under = (All-append_left (OpenIn now s.pairs key) below (start ∷ []) opens, ordered.0);
        older = ordered.1;
        none_newer = subst (All (λ b. b.timestamp_ns ≤ start.timestamp_ns)) whole (
            All-append (λ b. b.timestamp_ns ≤ start.timestamp_ns) below (start ∷ []) ordered.1
              (omega arith, tt));
      }

  -- An end is paired with the innermost open start, or is over the limit.
  closing-Nested :
      (s : Stacks V) (e start : Event V) (below : List (Event V)) (key : ℕ × ℕ) (paired : Bool)
      → Nested e.timestamp_ns s
      → Top e.timestamp_ns s key start below
      → Nested e.timestamp_ns (record s {
        stacks = insert key below s.stacks;
        pairs = if paired then s.pairs ++ make_pair start e ∷ [] else s.pairs;
      })
  unfolding make_pair
  closing-Nested s e start below key false n top =
      let all_stacks =
        group_at-insert (IsStack e.timestamp_ns s.pairs) key below s.stacks top.under
          (λ j. (n.open_at j, n.stacked j)) in
      record {
        closed = n.closed;
        non_crossing = n.non_crossing;
        open_at = λ j. (all_stacks j).0;
        stacked = λ j. (all_stacks j).1;
      }
  closing-Nested s e start below key true n top =
      let now = e.timestamp_ns in
      let pair = make_pair start e in
      let Older : Event V → Type 0 = λ b. b.timestamp_ns ≤ start.timestamp_ns in
      let grow : (j : ℕ × ℕ) (g : List (Event V))
          → All (OpenIn now s.pairs j) g
          → (thread_of start ≡ j → All Older g)
          → All (OpenIn now (s.pairs ++ pair ∷ []) j) g =
        λ j g o h.
          All-both (λ b k l. OpenIn-last now s.pairs j b pair k l) g o (All-if Older g h) in
      let under : IsStack now (s.pairs ++ pair ∷ []) key below =
        (grow key below top.under.0 (λ _. top.older), top.under.1) in
      let all_stacks =
        group_at-insert (IsStack now (s.pairs ++ pair ∷ [])) key below s.stacks under (λ j. (
          grow j (group_at j s.stacks) (n.open_at j) (λ same.
              subst (λ k. All Older (group_at k s.stacks)) (sym top.top.on_thread ∙ same)
                top.none_newer),
          n.stacked j,
        )) in
      record {
        closed =
            All-append (λ q. q.end.timestamp_ns ≤ now) s.pairs (pair ∷ []) n.closed
              (omega arith, tt);
        non_crossing =
            NonCrossing-last s.pairs pair n.non_crossing
              (closing-NonCrossing now s.pairs key start e top.top n.closed);
        open_at = λ j. (all_stacks j).0;
        stacked = λ j. (all_stacks j).1;
      }

  stack_step-Nested :
      (limit now : ℕ) (s : Stacks V) (m : Mark V)
      → IsMark m
      → now ≤ m.timestamp
      → Nested now s
      → Nested m.event.timestamp_ns (stack_step limit s m)
  unfolding stack_step
  stack_step-Nested limit now s m stamped h n =
      let key = thread_of m.event in
      let later = Nested-later now m.event.timestamp_ns s (omega (arith, stamped)) n in
      elim (Bool-cases (m.boundary == 0)) [
        | inl start ↦ rw start (opening-Nested s m.event later)
        | inr end ↦ elim (Option-cases (innermost s key)) [
          | inl e ↦
              rw (end, e, stack_step)
                (record {
                  closed = later.closed;
                  non_crossing = later.non_crossing;
                  open_at = later.open_at;
                  stacked = later.stacked;
                })
          | inr ((start, below), e) ↦
              rw (end, e, stack_step)
                (closing-Nested s m.event start below key (ltb (length s.pairs) limit) later (
                  innermost-Top m.event.timestamp_ns s key {start = start} {below = below} later e))
        ]
      ]

  stack_loop-NonCrossing :
      (limit now : ℕ) (timeline : List (Mark V)) (s : Stacks V)
      → All IsMark timeline
      → Ordered Earlier timeline
      → All (λ m. now ≤ m.timestamp) timeline
      → Nested now s
      → AllNonCrossing (stack_loop limit timeline s).pairs
  unfolding stack_loop
  stack_loop-NonCrossing limit now [] s marked sorted h n = n.non_crossing
  stack_loop-NonCrossing limit now (m ∷ timeline) s marked sorted h n =
      stack_loop-NonCrossing limit m.event.timestamp_ns timeline (stack_step limit s m) marked.1
        sorted.1
        (All-imp (λ (x : Mark V) (e : Earlier m x). omega (arith, marked.0)) timeline sorted.0)
        (stack_step-Nested limit now s m marked.0 h.0 n)

  -- Any two pairs of `correlate_stack_nested` whose starts are on one process and thread are
  -- disjoint in time or one lies inside the other: the pairs nest like calls.
  pub correlate_stack_nested-AllNonCrossing :
      (starts ends : List (Event V)) (limit : Option ℕ)
      → AllNonCrossing (correlate_stack_nested starts ends limit).pairs
  unfolding correlate_stack_nested sort_pairs
  correlate_stack_nested-AllNonCrossing starts ends limit =
      let timeline = boundary_timeline starts ends in
      let empty : Stacks V = record { stacks = []; pairs = []; unmatched_end = 0 } in
      let begun : Nested 0 empty =
        unfold group_at in
        record { closed = tt; non_crossing = tt; open_at = λ key. tt; stacked = λ key. tt } in
      let run =
        stack_loop-NonCrossing (unwrap_or limit usize_max) 0 timeline empty
          (All-boundary_timeline IsMark starts ends
            (All-of_forall (λ e. e.timestamp_ns ≡ e.timestamp_ns) (λ e. refl) starts)
            (All-of_forall (λ e. e.timestamp_ns ≡ e.timestamp_ns) (λ e. refl) ends))
          (boundary_timeline-Ordered starts ends)
          (All-of_forall (λ m. 0 ≤ m.timestamp) (λ m. omega arith) timeline) begun in
      All-sort_by _ _ _ (All-imp (λ p k. All-sort_by (NonCrossing p) _ _ k) _ run)
