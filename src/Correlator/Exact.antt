-- ===== src/Correlator/Exact.antt =====
-- `correlate_exact` of xprobe/correlator/src/lib.rs.
pub mod Groups
pub mod Loop
pub mod Accounting
pub mod Matching
use xprobe.Prelude.{
  ℕ, ◌+◌, Option, none, some, List, [], ◌∷◌, ◌++◌, length, max, ◌==◌, if◌then◌else◌,
}
use xprobe.Rust.Words.{checked_sub}
use xprobe.Rust.BTreeMap.{BTreeMap, get, remove}
use xprobe.Rust.BTreeMap.Groups.{push, total}
use xprobe.Protocol.Event.{Event}
use xprobe.Correlator.Pairs.{
  Outcome, CorrelationKey, correlation_key, key_ord, sort_pairs, truncate,
}

pub record Keyed (V : Type 0) : Type 0 where
  pub groups : BTreeMap CorrelationKey (List (Event V))
  pub unmatched : ℕ

module _ {V : Type 0} where
  unfoldable pub key_step : Keyed V → Event V → Keyed V
  unfolding correlation_key push
  key_step s event = elim (correlation_key event) [
    | none ↦ record s { unmatched = s.unmatched + 1 }
    | some key ↦ record s { groups = push key event s.groups }
  ]

  unfoldable pub group_by_key : List (Event V) → Keyed V → Keyed V
  unfolding key_step
  group_by_key [] s = s
  group_by_key (event ∷ events) s = group_by_key events (key_step s event)

  -- `for (start, end) in group.iter().zip(end_group)`.
  unfoldable pub zip_group : (starts ends : List (Event V)) → Outcome V → Outcome V
  unfolding checked_sub
  zip_group [] ends s = s
  zip_group (start ∷ starts) [] s = s
  zip_group (start ∷ starts) (end ∷ ends) s =
      zip_group starts ends (elim (checked_sub end.timestamp_ns start.timestamp_ns) [
        | some latency ↦ record s {
          pairs = s.pairs ++ record { start = start; end = end; latency_ns = latency } ∷ [];
        }
        | none ↦ record s {
          unmatched_start = s.unmatched_start + 1;
          unmatched_end = s.unmatched_end + 1;
        }
      ])

  unfoldable pub groups_loop :
      (start_groups end_groups : BTreeMap CorrelationKey (List (Event V))) → Outcome V → Outcome V
  unfolding zip_group get remove total
  groups_loop [] end_groups s = record s { unmatched_end = s.unmatched_end + total end_groups }
  groups_loop ((key, group) ∷ start_groups) end_groups s = elim (get key end_groups) [
    | none ↦
        groups_loop start_groups end_groups
          (record s { unmatched_start = s.unmatched_start + length group })
    | some end_group ↦ groups_loop start_groups (remove key end_groups) (
        if length group == length end_group
        then zip_group group end_group s
        else record s { ambiguous = s.ambiguous + max (length group) (length end_group) })
  ]

  unfoldable pub correlate_exact : (starts ends : List (Event V)) (limit : Option ℕ) → Outcome V
  unfolding group_by_key groups_loop sort_pairs truncate
  correlate_exact starts ends limit =
      let start_groups = group_by_key starts (record { groups = []; unmatched = 0 }) in
      let end_groups = group_by_key ends (record { groups = []; unmatched = 0 }) in
      let s = groups_loop start_groups.groups end_groups.groups (record {
        pairs = [];
        unmatched_start = start_groups.unmatched;
        unmatched_end = end_groups.unmatched;
        ambiguous = 0;
      }) in
      record s { pairs = truncate limit (sort_pairs s.pairs) }
