-- ===== src/Correlator/StreamOrder/Accounting.antt =====
-- Where every event goes in `correlate_stream_order`.
use xprobe.Prelude.{
  ℕ, ◌+◌, ◌≤◌, ◌≡◌, refl, ap, inl, inr, Option, List, [], ◌∷◌, ◌++◌, length, length-append, arith,
  List-cases, Option-cases, unwrap_or,
}
use xprobe.Rust.Ord.{nat_ord, pair_ord}
use xprobe.Rust.Words.{usize_max}
use xprobe.Rust.BTreeMap.{BTreeMap, get, remove}
use xprobe.Rust.BTreeMap.Groups.{total, total-push, total-remove}
use xprobe.Protocol.Event.{Event}
use xprobe.Correlator.Accounting.{Decided, truncate-Accounted}
use xprobe.Correlator.FirstAfter.{passed_before, skip_before, make_pair}
use xprobe.Correlator.FirstAfter.Accounting.{length-skip_before}
use xprobe.Correlator.StreamOrder.{
  StreamKey, Grouping, Progress, stream_key, group_step, group_by_stream, stream_loop, streams_loop,
  correlate_stream_order,
}

module _ {V : Type 0} where
  group_step-total :
      (s : Grouping V) (event : Event V)
      → total (group_step s event).groups + (group_step s event).unmatched
        ≡ total s.groups + s.unmatched + 1
  unfolding group_step
  group_step-total s event = elim (Option-cases (stream_key event)) [
    | inl e ↦ rw (e, group_step) (omega arith)
    | inr (key, e) ↦ rw (e, group_step) (omega (arith, total-push key event s.groups))
  ]

  -- An event is in a group or counted as unmatched.
  group_by_stream-total :
      (events : List (Event V)) (s : Grouping V)
      → total (group_by_stream events s).groups + (group_by_stream events s).unmatched
        ≡ total s.groups + s.unmatched + length events
  unfolding group_by_stream
  group_by_stream-total [] s = omega arith
  group_by_stream-total (event ∷ events) s =
      omega (arith, group_step-total s event, group_by_stream-total events (group_step s event))

  -- What the loops add to a progress: that many starts and ends, each in a pair or unmatched.
  record Adds (starts ends : ℕ) (s r : Progress V) : Type 0 where
    starts_added : length r.pairs + r.unmatched_start ≡ length s.pairs + s.unmatched_start + starts
    ends_added : length r.pairs + r.unmatched_end ≡ length s.pairs + s.unmatched_end + ends

  stream_loop-Adds :
      (starts ends : List (Event V)) (s : Progress V)
      → Adds (length starts) (length ends) s (stream_loop starts ends s)
  unfolding stream_loop
  stream_loop-Adds [] ends s = omega arith
  stream_loop-Adds (start ∷ starts) ends s =
      let t = start.timestamp_ns in
      elim (List-cases (skip_before t ends)) [
        | inl e ↦
            rw (e, stream_loop)
              (omega (
                arith,
                length-skip_before t ends,
                ap (λ (l : List (Event V)). length l) e,
                stream_loop-Adds starts [] (record s {
                  unmatched_start = s.unmatched_start + 1;
                  unmatched_end = s.unmatched_end + passed_before t ends;
                }),
              ))
        | inr (end, rest, e) ↦
            rw (e, stream_loop)
              (omega (
                arith,
                length-skip_before t ends,
                ap (λ (l : List (Event V)). length l) e,
                length-append s.pairs (make_pair start end ∷ []),
                stream_loop-Adds starts rest (record s {
                  pairs = s.pairs ++ make_pair start end ∷ [];
                  unmatched_end = s.unmatched_end + passed_before t ends;
                }),
              ))
      ]

  streams_loop-Adds :
      (start_groups end_groups : BTreeMap StreamKey (List (Event V))) (s : Progress V)
      → Adds (total start_groups) (total end_groups) s (streams_loop start_groups end_groups s)
  unfolding streams_loop
  streams_loop-Adds [] end_groups s = unfold total in omega arith
  streams_loop-Adds ((key, group) ∷ start_groups) end_groups s =
      elim (Option-cases (get key end_groups)) [
        | inl e ↦
            unfold total in
            rw (e, streams_loop)
              (omega (
                arith,
                streams_loop-Adds start_groups end_groups
                    (record s { unmatched_start = s.unmatched_start + length group }),
              ))
        | inr (end_group, e) ↦
            unfold total in
            rw (e, streams_loop)
              (omega (
                arith,
                total-remove key end_groups e,
                stream_loop-Adds group end_group s,
                streams_loop-Adds start_groups (remove key end_groups)
                    (stream_loop group end_group s),
              ))
      ]

  -- For starts that fit a slice, at most the limit is paired by `correlate_stream_order` and
  -- nothing is counted twice; below the limit every start and every end is either in a pair or
  -- counted as unmatched; and no event is counted as ambiguous.
  pub correlate_stream_order-Decided :
      (starts ends : List (Event V)) (limit : Option ℕ)
      → length starts ≤ usize_max
      → Decided
          (unwrap_or limit usize_max)
          (length starts)
          (length ends)
          (correlate_stream_order starts ends limit)
  unfolding correlate_stream_order
  correlate_stream_order-Decided starts ends limit h =
      let none_yet : Grouping V = record { groups = []; unmatched = 0 } in
      let start_groups = group_by_stream starts none_yet in
      let end_groups = group_by_stream ends none_yet in
      let s : Progress V = record {
        pairs = [];
        unmatched_start = start_groups.unmatched;
        unmatched_end = end_groups.unmatched;
      } in
      let r = streams_loop start_groups.groups end_groups.groups s in
      let added = streams_loop-Adds start_groups.groups end_groups.groups s in
      let grouped_starts = group_by_stream-total starts none_yet in
      let grouped_ends = group_by_stream-total ends none_yet in
      record {
        accounted =
            truncate-Accounted limit r.pairs r.unmatched_start r.unmatched_end 0 (length starts)
              (length ends) (unfold total in omega (arith, added, grouped_starts))
              (unfold total in omega (arith, added, grouped_ends)) h;
        certain = refl;
      }
