-- ===== src/Correlator/Timeline.antt =====
-- The timelines of xprobe/correlator/src/lib.rs: starts and ends in one sequence, sorted by
-- timestamp, then starts before ends, then by sequence number where the code asks for it.
pub mod Order
use xprobe.Prelude.{ℕ, Bool, List, ◌++◌, map, leb, ltb, ◌==◌, ◌&&◌, ◌||◌}
use xprobe.Rust.Sort.{sort_by}
use xprobe.Protocol.Event.{Event}

-- `(timestamp, boundary, event)`; the boundary is 0 at a start and 1 at an end.
pub record Mark (V : Type 0) : Type 0 where
  pub timestamp : ℕ
  pub boundary : ℕ
  pub event : Event V

module _ {V : Type 0} where
  abbrev pub start_mark : Event V → Mark V
  start_mark event = record { timestamp = event.timestamp_ns; boundary = 0; event = event }

  abbrev pub end_mark : Event V → Mark V
  end_mark event = record { timestamp = event.timestamp_ns; boundary = 1; event = event }

  unfoldable pub marks : (starts ends : List (Event V)) → List (Mark V)
  marks starts ends = map start_mark starts ++ map end_mark ends

  abbrev pub by_boundary : Mark V → Mark V → Bool
  by_boundary a b =
      ltb a.timestamp b.timestamp || a.timestamp == b.timestamp && leb a.boundary b.boundary

  abbrev pub by_sequence : Mark V → Mark V → Bool
  by_sequence a b =
      ltb a.timestamp b.timestamp
      || a.timestamp == b.timestamp
        && (ltb a.boundary b.boundary
            || a.boundary == b.boundary && leb a.event.sequence b.event.sequence)

  -- `timeline.sort_by_key(|(timestamp, boundary, event)| (*timestamp, *boundary, event.sequence))`.
  unfoldable pub sequence_timeline : (starts ends : List (Event V)) → List (Mark V)
  unfolding marks sort_by
  sequence_timeline starts ends = sort_by by_sequence (marks starts ends)

  -- `timeline.sort_by_key(|(timestamp, boundary, _)| (*timestamp, *boundary))`.
  unfoldable pub boundary_timeline : (starts ends : List (Event V)) → List (Mark V)
  unfolding marks sort_by
  boundary_timeline starts ends = sort_by by_boundary (marks starts ends)
