-- ===== src/Correlator/Exact/Accounting.antt =====
-- Where every event goes in `correlate_exact`.
use xprobe.Prelude.{
  All-imp, ℕ, ◌+◌, ◌<◌, min, ◌≡◌, refl, sym, ap, ◌∙◌, inl, inr, Bool, true, ◌&&◌, Option, none,
  some, List, [], ◌∷◌, arith, if◌then◌else◌, Bool-cases, Option-cases, unwrap_or, and_then, is_some,
  is_some_and, length, length-take, count,
}
use xprobe.Rust.Ord.{nat_ord, pair_ord}
use xprobe.Rust.BTreeMap.{get}
use xprobe.Rust.BTreeMap.Entries.{get-entries}
use xprobe.Rust.BTreeMap.Groups.{total, group_at}
use xprobe.Rust.BTreeMap.Sums.{over, over-add, over-ext, over-count}
use xprobe.Protocol.Event.{Event}
use xprobe.Correlator.Pairs.{
  Pair, Outcome, CorrelationKey, correlation_key, key_ord, sort_pairs, truncate,
}
use xprobe.Correlator.Accounting.{length-sort_pairs}
use xprobe.Correlator.Exact.Groups.{
  with_key, IsGrouping, group_by_key-IsGrouping, length-group_by_key,
}
use xprobe.Correlator.Exact.{Keyed, group_by_key, groups_loop, correlate_exact}
use xprobe.Correlator.Exact.Loop.{
  differs, outnumbers, Grouped, when_mixed, larger, Holds, groups_loop-Adds, group_by_key-total,
}

module _ {V : Type 0} where
  length-truncate :
      (limit : Option ℕ) (full : List (Pair V))
      → length (truncate limit (sort_pairs full))
        ≡ unwrap_or (and_then limit (λ n. some (min n (length full)))) (length full)
  unfolding truncate
  length-truncate none full = length-sort_pairs full
  length-truncate (some n) full =
      omega (arith, length-take n (sort_pairs full), length-sort_pairs full)

  count-ext :
      (p q : Event V → Bool) (events : List (Event V))
      → ((e : Event V) → p e ≡ q e)
      → count p events ≡ count q events
  count-ext p q [] h = refl
  count-ext p q (e ∷ events) h = rw (h e) (ground (arith, count-ext p q events h))

  abbrev none_yet : Keyed V
  none_yet = record { groups = []; unmatched = 0 }

  unfoldable groups_of : List (Event V) → Grouped V
  groups_of events = (group_by_key events none_yet).groups

  groups_of-IsGrouping : (events : List (Event V)) → IsGrouping (groups_of events)
  unfolding groups_of
  groups_of-IsGrouping events =
      group_by_key-IsGrouping events none_yet (record { ascends = tt; filled = tt })

  length-groups_of :
      (key : CorrelationKey) (events : List (Event V))
      → length (group_at key (groups_of events)) ≡ with_key key events
  unfolding groups_of group_at get
  length-groups_of key events = omega (arith, length-group_by_key key events none_yet)

  -- The events whose key passes a test.
  abbrev keyed : (CorrelationKey → Bool) → Event V → Bool
  keyed p e = is_some_and (correlation_key e) p

  present :
      (key : CorrelationKey) (events : List (Event V))
      → 0 < with_key key events
      → is_some (get key (groups_of events)) ≡ true
  unfolding group_at
  present key events h = elim (Option-cases (get key (groups_of events))) [
    | inl e ↦
        absurd
          (omega (arith, h, sym (length-groups_of key events), ap (λ o. length (unwrap_or o [])) e))
    | inr (g, e) ↦ rw e refl
  ]

  -- A sum over the keys of the starts, for a test that only a key of the starts passes.
  over_keys :
      (p : CorrelationKey → Bool) (starts events : List (Event V))
      → ((k : CorrelationKey) → p k ≡ true → 0 < with_key k starts)
      → over (λ k. if p k then with_key k events else 0) (groups_of starts) ≡ count (keyed p) events
  over_keys p starts events h =
      over-count correlation_key p events (groups_of starts) (groups_of-IsGrouping starts).ascends
      ∙ count-ext (keyed (λ k. p k && is_some (get k (groups_of starts)))) (keyed p) events (λ e.
        elim (Option-cases (correlation_key e)) [
          | inl n ↦ rw n refl
          | inr (k, n) ↦ rw n (elim (Bool-cases (p k)) [
            | inl t ↦ rw t (present k starts (h k t))
            | inr f ↦ rw f refl
          ])
        ])

  groups_of-Holds :
      (starts ends : List (Event V))
      → Holds (λ k. with_key k starts) (λ k. with_key k ends) (groups_of starts) (groups_of ends)
  unfolding group_at
  groups_of-Holds starts ends =
      let grouping = groups_of-IsGrouping starts in
      let entries = get-entries (groups_of starts) grouping.ascends in
      record {
        start_grouping = grouping;
        end_grouping = groups_of-IsGrouping ends;
        starts_are =
            All-imp
              (λ (e : CorrelationKey × List (Event V)) (is : get e.0 (groups_of starts) ≡ some e.1).
                ap (λ o. length (unwrap_or o [])) (sym is) ∙ length-groups_of e.0 starts)
              (groups_of starts) entries;
        ends_are =
            All-imp
              (λ (e : CorrelationKey × List (Event V)) (is : get e.0 (groups_of starts) ≡ some e.1).
                length-groups_of e.0 ends)
              (groups_of starts) entries;
      }

  -- The events of `own` whose key is on both sides, but not equally often.
  abbrev pub in_mixed : (own other : List (Event V)) → ℕ
  in_mixed own other = count (keyed (λ k. differs (with_key k own) (with_key k other))) own

  -- The events of `own` whose key is on both sides, and more often on this one.
  abbrev pub in_larger : (own other : List (Event V)) → ℕ
  in_larger own other = count (keyed (λ k. outnumbers (with_key k own) (with_key k other))) own

  -- The counts of an exact correlation, with `matched` pairs before `truncate`.
  pub record Covers (limit : Option ℕ) (starts ends : List (Event V)) (o : Outcome V) : Type 0 where
    pub matched : ℕ
    pub cut : length o.pairs ≡ unwrap_or (and_then limit (λ n. some (min n matched))) matched
    pub starts_covered : matched + o.unmatched_start + in_mixed starts ends ≡ length starts
    pub ends_covered : matched + o.unmatched_end + in_mixed ends starts ≡ length ends
    pub ambiguous_is : o.ambiguous ≡ in_larger starts ends + in_larger ends starts

  mixed_starts :
      (starts ends : List (Event V))
      → over
          (when_mixed (λ k. with_key k starts) (λ k. with_key k ends) (λ k. with_key k starts))
          (groups_of starts)
        ≡ in_mixed starts ends
  mixed_starts starts ends =
      over_keys (λ k. differs (with_key k starts) (with_key k ends)) starts starts
        (λ k h. ground (arith, h))

  mixed_ends :
      (starts ends : List (Event V))
      → over
          (when_mixed (λ k. with_key k starts) (λ k. with_key k ends) (λ k. with_key k ends))
          (groups_of starts)
        ≡ in_mixed ends starts
  mixed_ends starts ends =
      over-ext _ (λ k. if differs (with_key k ends) (with_key k starts) then with_key k ends else 0)
        (groups_of starts) (λ k. ground arith)
      ∙ over_keys (λ k. differs (with_key k ends) (with_key k starts)) starts ends
          (λ k h. ground (arith, h))

  larger_sides :
      (starts ends : List (Event V))
      → over
          (when_mixed
            (λ k. with_key k starts)
            (λ k. with_key k ends)
            (larger (λ k. with_key k starts) (λ k. with_key k ends)))
          (groups_of starts)
        ≡ in_larger starts ends + in_larger ends starts
  larger_sides starts ends =
      let more_starts : CorrelationKey → ℕ =
        λ k. if outnumbers (with_key k starts) (with_key k ends) then with_key k starts else 0 in
      let more_ends : CorrelationKey → ℕ =
        λ k. if outnumbers (with_key k ends) (with_key k starts) then with_key k ends else 0 in
      over-ext _ (λ k. more_starts k + more_ends k) (groups_of starts) (λ k. ground arith)
      ∙ over-add more_starts more_ends (groups_of starts)
      ∙ omega (
        arith,
        over_keys (λ k. outnumbers (with_key k starts) (with_key k ends)) starts starts
            (λ k h. ground (arith, h)),
        over_keys (λ k. outnumbers (with_key k ends) (with_key k starts)) starts ends
            (λ k h. ground (arith, h)),
      )

  -- Before the limit, which only cuts the pairs of `correlate_exact`, its pairs, its unmatched
  -- starts and the starts whose key ends have too, but not as many, add up to the starts; the
  -- same holds of the ends; and the ambiguous events are exactly those whose key is on both sides
  -- and more often on their own.
  pub correlate_exact-Covers :
      (starts ends : List (Event V)) (limit : Option ℕ)
      → Covers limit starts ends (correlate_exact starts ends limit)
  unfolding correlate_exact groups_of
  correlate_exact-Covers starts ends limit =
      let s : Outcome V = record {
        pairs = [];
        unmatched_start = (group_by_key starts none_yet).unmatched;
        unmatched_end = (group_by_key ends none_yet).unmatched;
        ambiguous = 0;
      } in
      let r = groups_loop (groups_of starts) (groups_of ends) s in
      let added =
        groups_loop-Adds (λ k. with_key k starts) (λ k. with_key k ends) (groups_of starts)
          (groups_of ends) s (groups_of-Holds starts ends) in
      let n = group_by_key-total starts none_yet in
      let m = group_by_key-total ends none_yet in
      record {
        matched = length r.pairs;
        cut = length-truncate limit r.pairs;
        starts_covered =
            unfold total in omega (arith, added.starts_added, mixed_starts starts ends, n);
        ends_covered = unfold total in omega (arith, added.ends_added, mixed_ends starts ends, m);
        ambiguous_is = omega (arith, added.ambiguous_added, larger_sides starts ends);
      }
