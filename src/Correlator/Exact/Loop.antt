-- ===== src/Correlator/Exact/Loop.antt =====
-- What the loop of `correlate_exact` over the groups adds to its counts.
use xprobe.Prelude.{
  ℕ, ◌+◌, max, ◌≡◌, ap, ◌∙◌, subst, inl, inr, Bool, not, ◌&&◌, List, [], ◌∷◌, ◌++◌, arith, ◌==◌,
  ltb, if◌then◌else◌, Bool-cases, Option-cases, unwrap_or, length, length-append, All, All-both,
}
use xprobe.Rust.Ord.{nat_ord, pair_ord}
use xprobe.Rust.Words.{checked_sub}
use xprobe.Rust.BTreeMap.{BTreeMap, get, remove, Sooner, remove-Ascends, All-remove, All-get}
use xprobe.Rust.BTreeMap.Groups.{total, total-push, total-remove, group_at}
use xprobe.Rust.BTreeMap.Sums.{over, get-remove_other}
use xprobe.Protocol.Event.{Event}
use xprobe.Correlator.Pairs.{Pair, Outcome, CorrelationKey, correlation_key, key_ord}
use xprobe.Correlator.Exact.Groups.{IsFilled, IsGrouping, ne_of_lt}
use xprobe.Correlator.Exact.{Keyed, key_step, group_by_key, zip_group, groups_loop}

-- Of the numbers of events on two sides: both are there and they differ, or the first is the larger.
abbrev pub differs : ℕ → ℕ → Bool
differs own other = not (own == other) && ltb 0 own && ltb 0 other

abbrev pub outnumbers : ℕ → ℕ → Bool
outnumbers own other = ltb 0 other && ltb other own

abbrev pub Grouped : Type 0 → Type 0
Grouped V = BTreeMap CorrelationKey (List (Event V))

module _ (a b : CorrelationKey → ℕ) where
  -- A number of a key whose sides are both there and differ.
  abbrev pub when_mixed : (CorrelationKey → ℕ) → CorrelationKey → ℕ
  when_mixed f k = if differs (a k) (b k) then f k else 0

  abbrev pub larger : CorrelationKey → ℕ
  larger k = max (a k) (b k)

module _ {V : Type 0} where
  key_step-total :
      (s : Keyed V) (event : Event V)
      → total (key_step s event).groups + (key_step s event).unmatched
        ≡ total s.groups + s.unmatched + 1
  unfolding key_step
  key_step-total s event = elim (Option-cases (correlation_key event)) [
    | inl e ↦ rw (e, key_step) (omega arith)
    | inr (key, e) ↦ rw (e, key_step) (omega (arith, total-push key event s.groups))
  ]

  pub group_by_key-total :
      (events : List (Event V)) (s : Keyed V)
      → total (group_by_key events s).groups + (group_by_key events s).unmatched
        ≡ total s.groups + s.unmatched + length events
  unfolding group_by_key
  group_by_key-total [] s = omega arith
  group_by_key-total (event ∷ events) s =
      omega (arith, key_step-total s event, group_by_key-total events (key_step s event))

  -- A pairing of groups of equal length: each start and each end is in a pair or unmatched.
  record Zips (n : ℕ) (s r : Outcome V) : Type 0 where
    starts_zipped : length r.pairs + r.unmatched_start ≡ length s.pairs + s.unmatched_start + n
    ends_zipped : length r.pairs + r.unmatched_end ≡ length s.pairs + s.unmatched_end + n
    same_ambiguous : r.ambiguous ≡ s.ambiguous

  zip_group-Zips :
      (starts ends : List (Event V)) (s : Outcome V)
      → length starts ≡ length ends
      → Zips (length starts) s (zip_group starts ends s)
  unfolding zip_group
  zip_group-Zips [] [] s h = omega arith
  zip_group-Zips [] (e ∷ ends) s h = absurd (omega arith)
  zip_group-Zips (start ∷ starts) [] s h = absurd (omega arith)
  zip_group-Zips (start ∷ starts) (end ∷ ends) s h =
      elim (Option-cases (checked_sub end.timestamp_ns start.timestamp_ns)) [
        | inl e ↦
            let s' : Outcome V = record s {
              unmatched_start = s.unmatched_start + 1;
              unmatched_end = s.unmatched_end + 1;
            } in
            rw (e, zip_group) (omega (arith, zip_group-Zips starts ends s' (omega arith)))
        | inr (d, e) ↦
            let pair : Pair V = record { start = start; end = end; latency_ns = d } in
            let s' : Outcome V = record s { pairs = s.pairs ++ pair ∷ [] } in
            rw (e, zip_group)
              (omega (
                arith,
                zip_group-Zips starts ends s' (omega arith),
                length-append s.pairs (pair ∷ []),
              ))
      ]

  -- The loop over groups that hold `a` starts and `b` ends of each key.
  module _ (a b : CorrelationKey → ℕ) where
    pub record Adds (start_groups end_groups : Grouped V) (s r : Outcome V) : Type 0 where
      pub starts_added :
          length r.pairs + r.unmatched_start + over (when_mixed a b a) start_groups
          ≡ length s.pairs + s.unmatched_start + total start_groups
      pub ends_added :
          length r.pairs + r.unmatched_end + over (when_mixed a b b) start_groups
          ≡ length s.pairs + s.unmatched_end + total end_groups
      pub ambiguous_added :
          r.ambiguous ≡ s.ambiguous + over (when_mixed a b (larger a b)) start_groups

    pub record Holds (start_groups end_groups : Grouped V) : Type 0 where
      pub start_grouping : IsGrouping start_groups
      pub end_grouping : IsGrouping end_groups
      pub starts_are :
          All (λ (e : CorrelationKey × List (Event V)). length e.1 ≡ a e.0) start_groups
      pub ends_are :
          All
            (λ (e : CorrelationKey × List (Event V)). length (group_at e.0 end_groups) ≡ b e.0)
            start_groups

    rest-Holds :
        (key : CorrelationKey) (group : List (Event V)) (start_groups end_groups : Grouped V)
        → Holds ((key, group) ∷ start_groups) end_groups
        → Holds start_groups (remove key end_groups)
    unfolding group_at
    rest-Holds key group start_groups end_groups h = record {
      start_grouping = record {
        ascends = h.start_grouping.ascends.1;
        filled = h.start_grouping.filled.1;
      };
      end_grouping = record {
        ascends = remove-Ascends key end_groups h.end_grouping.ascends;
        filled = All-remove IsFilled key end_groups h.end_grouping.filled;
      };
      starts_are = h.starts_are.1;
      ends_are =
          All-both
            (λ (e : CorrelationKey × List (Event V)) (later : Sooner (key, group) e)
                (is : length (unwrap_or (get e.0 end_groups) []) ≡ b e.0).
              ap (λ o. length (unwrap_or o []))
                (get-remove_other e.0 key end_groups h.end_grouping.ascends
                  (ne_of_lt key e.0 later))
              ∙ is)
            start_groups h.start_grouping.ascends.0 h.ends_are.1;
    }

    kept-Holds :
        (key : CorrelationKey) (group : List (Event V)) (start_groups end_groups : Grouped V)
        → Holds ((key, group) ∷ start_groups) end_groups
        → Holds start_groups end_groups
    kept-Holds key group start_groups end_groups h = record {
      start_grouping = record {
        ascends = h.start_grouping.ascends.1;
        filled = h.start_grouping.filled.1;
      };
      end_grouping = h.end_grouping;
      starts_are = h.starts_are.1;
      ends_are = h.ends_are.1;
    }

    pub groups_loop-Adds :
        (start_groups end_groups : Grouped V) (s : Outcome V)
        → Holds start_groups end_groups
        → Adds start_groups end_groups s (groups_loop start_groups end_groups s)
    unfolding groups_loop over total group_at
    groups_loop-Adds [] end_groups s h = omega arith
    groups_loop-Adds ((key, group) ∷ start_groups) end_groups s h =
        elim (Option-cases (get key end_groups)) [
          | inl e ↦
              let s' : Outcome V = record s {
                unmatched_start = s.unmatched_start + length group;
              } in
              let rest =
                groups_loop-Adds start_groups end_groups s'
                  (kept-Holds key group start_groups end_groups h) in
              let no_ends : 0 ≡ b key =
                subst (λ o. length (unwrap_or o []) ≡ b key) e h.ends_are.0 in
              rw (e, groups_loop)
                (record {
                  starts_added = ground (arith, rest.starts_added, no_ends);
                  ends_added = ground (arith, rest.ends_added, no_ends);
                  ambiguous_added = ground (arith, rest.ambiguous_added, no_ends);
                })
          | inr (end_group, e) ↦
              let some_ends : length end_group ≡ b key =
                subst (λ o. length (unwrap_or o []) ≡ b key) e h.ends_are.0 in
              let filled = All-get IsFilled key end_groups h.end_grouping.filled e in
              let nonempty = h.start_grouping.filled.0 in
              let fewer = total-remove key end_groups e in
              let left = rest-Holds key group start_groups end_groups h in
              let starts_of = h.starts_are.0 in
              elim (Bool-cases (length group == length end_group)) [
                | inl same ↦
                    let zipped = zip_group-Zips group end_group s (ground (arith, same)) in
                    let rest =
                      groups_loop-Adds start_groups (remove key end_groups)
                        (zip_group group end_group s) left in
                    rw (e, groups_loop)
                      (rw same (record {
                        starts_added =
                            ground (arith, rest.starts_added, zipped.starts_zipped, same);
                        ends_added = ground (arith, rest.ends_added, zipped.ends_zipped, same);
                        ambiguous_added =
                            ground (arith, rest.ambiguous_added, zipped.same_ambiguous, same);
                      }))
                | inr other ↦
                    let s' : Outcome V = record s {
                      ambiguous = s.ambiguous + max (length group) (length end_group);
                    } in
                    let rest = groups_loop-Adds start_groups (remove key end_groups) s' left in
                    rw (e, groups_loop)
                      (rw other (record {
                        starts_added = ground (arith, rest.starts_added, other);
                        ends_added = ground (arith, rest.ends_added, other);
                        ambiguous_added = ground (arith, rest.ambiguous_added, other);
                      }))
              ]
        ]
