-- ===== src/Correlator/StreamOrder.antt =====
-- `correlate_stream_order` and `group_by_stream` of xprobe/correlator/src/lib.rs.
pub mod Accounting
pub mod Matching
use xprobe.Prelude.{ℕ, ◌+◌, Option, none, some, List, [], ◌∷◌, ◌++◌, length, and_then}
use xprobe.Rust.Ord.{nat_ord, pair_ord}
use xprobe.Rust.BTreeMap.{BTreeMap, get, remove}
use xprobe.Rust.BTreeMap.Groups.{push, total}
use xprobe.Protocol.Event.{Event}
use xprobe.Correlator.Pairs.{Pair, Outcome, sort_pairs, truncate}
use xprobe.Correlator.FirstAfter.{passed_before, skip_before, make_pair}

-- `(pid, device, context, stream)`.
abbrev pub StreamKey : Type 0
StreamKey = ℕ × (ℕ × (ℕ × ℕ))

pub record Grouping (V : Type 0) : Type 0 where
  pub groups : BTreeMap StreamKey (List (Event V))
  pub unmatched : ℕ

pub record Progress (V : Type 0) : Type 0 where
  pub pairs : List (Pair V)
  pub unmatched_start : ℕ
  pub unmatched_end : ℕ

module _ {V : Type 0} where
  unfoldable pub stream_key : Event V → Option StreamKey
  stream_key event = and_then event.cuda λ cuda. and_then cuda.device_id λ device.
      and_then cuda.context_id
        λ context. and_then cuda.stream_id λ stream. some (event.pid, (device, (context, stream)))

  unfoldable pub group_step : Grouping V → Event V → Grouping V
  unfolding stream_key push
  group_step s event = elim (stream_key event) [
    | none ↦ record s { unmatched = s.unmatched + 1 }
    | some key ↦ record s { groups = push key event s.groups }
  ]

  unfoldable pub group_by_stream : List (Event V) → Grouping V → Grouping V
  unfolding group_step
  group_by_stream [] s = s
  group_by_stream (event ∷ events) s = group_by_stream events (group_step s event)

  -- The loop over the starts of one stream.
  unfoldable pub stream_loop : (starts ends : List (Event V)) → Progress V → Progress V
  unfolding passed_before skip_before make_pair
  stream_loop [] ends s = record s { unmatched_end = s.unmatched_end + length ends }
  stream_loop (start ∷ starts) ends s =
      let passed = s.unmatched_end + passed_before start.timestamp_ns ends in
      elim (skip_before start.timestamp_ns ends) [
        | [] ↦
            stream_loop starts []
              (record s { unmatched_start = s.unmatched_start + 1; unmatched_end = passed })
        | end ∷ rest ↦
            stream_loop starts rest
              (record s { pairs = s.pairs ++ make_pair start end ∷ []; unmatched_end = passed })
      ]

  -- The loop over the start groups; the end groups that are left over count as unmatched.
  unfoldable pub streams_loop :
      (start_groups end_groups : BTreeMap StreamKey (List (Event V))) → Progress V → Progress V
  unfolding stream_loop get remove total
  streams_loop [] end_groups s = record s { unmatched_end = s.unmatched_end + total end_groups }
  streams_loop ((key, group) ∷ start_groups) end_groups s = elim (get key end_groups) [
    | none ↦
        streams_loop start_groups end_groups
          (record s { unmatched_start = s.unmatched_start + length group })
    | some end_group ↦
        streams_loop start_groups (remove key end_groups) (stream_loop group end_group s)
  ]

  unfoldable pub correlate_stream_order :
      (starts ends : List (Event V)) (limit : Option ℕ) → Outcome V
  unfolding group_by_stream streams_loop sort_pairs truncate
  correlate_stream_order starts ends limit =
      let start_groups = group_by_stream starts (record { groups = []; unmatched = 0 }) in
      let end_groups = group_by_stream ends (record { groups = []; unmatched = 0 }) in
      let s = streams_loop start_groups.groups end_groups.groups (record {
        pairs = [];
        unmatched_start = start_groups.unmatched;
        unmatched_end = end_groups.unmatched;
      }) in
      record {
        pairs = truncate limit (sort_pairs s.pairs);
        unmatched_start = s.unmatched_start;
        unmatched_end = s.unmatched_end;
        ambiguous = 0;
      }
