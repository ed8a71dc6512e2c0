-- ===== src/Correlator/StackNested/Accounting.antt =====
-- Where every event goes in `correlate_stack_nested`.
use xprobe.Prelude.{
  ℕ, ◌+◌, min, ◌≡◌, refl, ap, subst, inl, inr, Option, some, List, [], ◌∷◌, arith, ◌==◌, Bool-cases,
  Option-cases, unwrap_or, and_then, length, count, length-append, count-append,
}
use xprobe.Rust.Ord.{nat_ord, pair_ord}
use xprobe.Rust.Words.{usize_max}
use xprobe.Rust.BTreeMap.{get, insert}
use xprobe.Rust.BTreeMap.Groups.{total, total-push, total-insert, pop, length-pop}
use xprobe.Protocol.Event.{Event}
use xprobe.Correlator.Accounting.{Decided, length-sort_pairs}
use xprobe.Correlator.FirstAfter.{make_pair}
use xprobe.Correlator.Timeline.{Mark, boundary_timeline}
use xprobe.Correlator.Timeline.Order.{
  is_start, is_end, boundary_timeline_starts, boundary_timeline_ends,
}
use xprobe.Correlator.StackNested.{
  some, Stacks, thread_of, innermost, stack_step, stack_loop, correlate_stack_nested,
}

module _ {V : Type 0} where
  -- Taking the innermost start of a thread leaves one open start fewer.
  total-innermost :
      (s : Stacks V) (key : ℕ × ℕ) {start : Event V} {below : List (Event V)}
      → innermost s key ≡ some (start, below)
      → total s.stacks ≡ total (insert key below s.stacks) + 1
  unfolding innermost
  total-innermost s key {start} {below} e = elim (Option-cases (get key s.stacks)) [
    | inl n ↦ cc (subst (λ o. and_then o pop ≡ some (start, below)) n e)
    | inr (stack, n) ↦
        let popped = subst (λ o. and_then o pop ≡ some (start, below)) n e in
        omega (
          arith,
          length-pop stack popped,
          total-insert key below s.stacks,
          ap (λ (o : Option (List (Event V))). length (unwrap_or o [])) n,
        )
  ]

  -- With the starts and ends that have been seen: `closed` of each were matched to one another.
  record Balance (limit starts ends : ℕ) (s : Stacks V) : Type 0 where
    closed : ℕ
    starts_seen : closed + total s.stacks ≡ starts
    ends_seen : closed + s.unmatched_end ≡ ends
    kept : length s.pairs ≡ min closed limit

  stack_step-Balance :
      (limit starts ends : ℕ) (s : Stacks V) (mark : Mark V)
      → Balance limit starts ends s
      → Balance limit
          (starts + count is_start (mark ∷ []))
          (ends + count is_end (mark ∷ []))
          (stack_step limit s mark)
  unfolding stack_step
  stack_step-Balance limit starts ends s mark b =
      let key = thread_of mark.event in
      elim (Bool-cases (mark.boundary == 0)) [
        | inl opens ↦ rw opens (record {
          closed = b.closed;
          starts_seen = omega (arith, b.starts_seen, total-push key mark.event s.stacks);
          ends_seen = omega (arith, b.ends_seen);
          kept = b.kept;
        })
        | inr closes ↦ elim (Option-cases (innermost s key)) [
          | inl e ↦
              rw (closes, e, stack_step)
                (record {
                  closed = b.closed;
                  starts_seen = omega (arith, b.starts_seen);
                  ends_seen = omega (arith, b.ends_seen);
                  kept = b.kept;
                })
          | inr ((start, below), e) ↦
              rw (closes, e, stack_step)
                (record {
                  closed = b.closed + 1;
                  starts_seen = omega (arith, b.starts_seen, total-innermost s key e);
                  ends_seen = omega (arith, b.ends_seen);
                  kept =
                      ground
                        (arith, b.kept, length-append s.pairs (make_pair start mark.event ∷ []));
                })
        ]
      ]

  stack_loop-Balance :
      (limit starts ends : ℕ) (timeline : List (Mark V)) (s : Stacks V)
      → Balance limit starts ends s
      → Balance limit
          (starts + count is_start timeline)
          (ends + count is_end timeline)
          (stack_loop limit timeline s)
  unfolding stack_loop
  stack_loop-Balance limit starts ends [] s b = record {
    closed = b.closed;
    starts_seen = omega (arith, b.starts_seen);
    ends_seen = omega (arith, b.ends_seen);
    kept = b.kept;
  }
  stack_loop-Balance limit starts ends (mark ∷ timeline) s b =
      let n = count is_start (mark ∷ []) in
      let m = count is_end (mark ∷ []) in
      let done =
        stack_loop-Balance limit (starts + n) (ends + m) timeline (stack_step limit s mark)
          (stack_step-Balance limit starts ends s mark b) in
      record {
        closed = done.closed;
        starts_seen = omega (arith, done.starts_seen, count-append is_start (mark ∷ []) timeline);
        ends_seen = omega (arith, done.ends_seen, count-append is_end (mark ∷ []) timeline);
        kept = done.kept;
      }

  -- At most the limit is paired by `correlate_stack_nested` and nothing is counted twice; below
  -- the limit every start and every end is either in a pair or counted as unmatched; and no event
  -- is counted as ambiguous.
  pub correlate_stack_nested-Decided :
      (starts ends : List (Event V)) (limit : Option ℕ)
      → Decided
          (unwrap_or limit usize_max)
          (length starts)
          (length ends)
          (correlate_stack_nested starts ends limit)
  unfolding correlate_stack_nested
  correlate_stack_nested-Decided starts ends limit =
      let cap = unwrap_or limit usize_max in
      let empty : Stacks V = record { stacks = []; pairs = []; unmatched_end = 0 } in
      let opened : Balance cap 0 0 empty =
        unfold total in
        record { closed = 0; starts_seen = refl; ends_seen = refl; kept = omega arith } in
      let timeline = boundary_timeline starts ends in
      let done = stack_loop-Balance cap 0 0 timeline empty opened in
      record {
        accounted = omega (
          arith,
          done.starts_seen,
          done.ends_seen,
          done.kept,
          boundary_timeline_starts starts ends,
          boundary_timeline_ends starts ends,
          length-sort_pairs (stack_loop cap timeline empty).pairs,
        );
        certain = refl;
      }
