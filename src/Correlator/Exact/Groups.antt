-- ===== src/Correlator/Exact/Groups.antt =====
-- The groups that `correlate_exact` makes of the events by their correlation keys.
use xprobe.Prelude.{
  ℕ, ◌+◌, ◌<◌, ◌≡◌, ◌≢◌, subst, inl, inr, List, [], ◌∷◌, ◌++◌, arith, if◌then◌else◌, unwrap_or,
  length, length-append, count, All, Ordering, Ordering-cases, Option-cases,
}
use xprobe.Rust.Ord.{nat_ord, pair_ord}
use xprobe.Rust.BTreeMap.{BTreeMap, get, insert, Ascends, insert-Ascends, All-insert}
use xprobe.Rust.BTreeMap.Lookup.{get-insert, get-insert_other}
use xprobe.Rust.BTreeMap.Entries.{is_eq}
use xprobe.Rust.BTreeMap.Groups.{push, group_at}
use xprobe.Rust.BTreeMap.Sums.{has_key}
use xprobe.Protocol.Event.{Event}
use xprobe.Correlator.Pairs.{CorrelationKey, correlation_key, key_ord}
use xprobe.Correlator.Exact.{Keyed, key_step, group_by_key}

pub ne_of_lt : (j k : CorrelationKey) → key_ord.cmp j k ≡ Ordering.lt → k ≢ j
ne_of_lt j k lt e = cc (key_ord.cmp_self j, subst (λ i. key_ord.cmp j i ≡ Ordering.lt) e lt)

ne_of_gt : (j k : CorrelationKey) → key_ord.cmp j k ≡ Ordering.gt → k ≢ j
ne_of_gt j k gt e = cc (key_ord.cmp_self j, subst (λ i. key_ord.cmp j i ≡ Ordering.gt) e gt)

module _ {V : Type 0} where
  -- How many events have a key.
  abbrev pub with_key : CorrelationKey → List (Event V) → ℕ
  with_key key events = count (has_key correlation_key key) events

  abbrev pub IsFilled : CorrelationKey × List (Event V) → Type 0
  IsFilled entry = 0 < length entry.1

  length-push :
      (key j : CorrelationKey) (event : Event V) (m : BTreeMap CorrelationKey (List (Event V)))
      → length (group_at key (push j event m))
        ≡ length (group_at key m) + (if is_eq (key_ord.cmp j key) then 1 else 0)
  unfolding group_at push
  length-push key j event m =
      let old = unwrap_or (get j m) [] in
      elim (Ordering-cases (key_ord.cmp j key)) [
        | inr (inl eq) ↦
            let same = key_ord.eq_of_cmp j key eq in
            rw eq (
              subst
                (λ (k : CorrelationKey).
                  length (unwrap_or (get k (insert j (old ++ event ∷ []) m)) [])
                  ≡ length (unwrap_or (get k m) []) + 1)
                same (rw (get-insert j (old ++ event ∷ []) m) (length-append old (event ∷ []))))
        | inl lt ↦
            rw lt
              (rw (get-insert_other key j (old ++ event ∷ []) m (ne_of_lt j key lt)) (omega arith))
        | inr (inr gt) ↦
            rw gt
              (rw (get-insert_other key j (old ++ event ∷ []) m (ne_of_gt j key gt)) (omega arith))
      ]

  -- A map of groups.
  pub record IsGrouping (m : BTreeMap CorrelationKey (List (Event V))) : Type 0 where
    pub ascends : Ascends m
    pub filled : All IsFilled m

  key_step-IsGrouping :
      (s : Keyed V) (event : Event V) → IsGrouping s.groups → IsGrouping (key_step s event).groups
  unfolding key_step push
  key_step-IsGrouping s event g = elim (Option-cases (correlation_key event)) [
    | inl e ↦ rw (e, key_step) g
    | inr (key, e) ↦
        let old = unwrap_or (get key s.groups) [] in
        rw (e, key_step)
          (record {
            ascends = insert-Ascends key (old ++ event ∷ []) s.groups g.ascends;
            filled =
                All-insert IsFilled key (old ++ event ∷ []) s.groups
                  (omega (arith, length-append old (event ∷ []))) g.filled;
          })
  ]

  pub group_by_key-IsGrouping :
      (events : List (Event V)) (s : Keyed V)
      → IsGrouping s.groups
      → IsGrouping (group_by_key events s).groups
  unfolding group_by_key
  group_by_key-IsGrouping [] s g = g
  group_by_key-IsGrouping (event ∷ events) s g =
      group_by_key-IsGrouping events (key_step s event) (key_step-IsGrouping s event g)

  length-key_step :
      (key : CorrelationKey) (s : Keyed V) (event : Event V)
      → length (group_at key (key_step s event).groups)
        ≡ length (group_at key s.groups) + with_key key (event ∷ [])
  unfolding key_step
  length-key_step key s event = elim (Option-cases (correlation_key event)) [
    | inl e ↦ rw (e, key_step) (omega arith)
    | inr (j, e) ↦ rw (e, key_step) (omega (arith, length-push key j event s.groups))
  ]

  -- The group of a key has the events of the key.
  pub length-group_by_key :
      (key : CorrelationKey) (events : List (Event V)) (s : Keyed V)
      → length (group_at key (group_by_key events s).groups)
        ≡ length (group_at key s.groups) + with_key key events
  unfolding group_by_key
  length-group_by_key key [] s = omega arith
  length-group_by_key key (event ∷ events) s =
      ground (arith, length-key_step key s event, length-group_by_key key events (key_step s event))
