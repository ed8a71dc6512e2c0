-- ===== src/Correlator/Timeline/Order.antt =====
-- The order and the marks of a timeline.
use xprobe.Prelude.{
  ◌≤◌, ◌≡◌, ◌∙◌, Bool, true, false, List, [], ◌∷◌, map, arith, ◌==◌, if◌then◌else◌, length, count,
  count-append, All, All-append, Ordered,
}
use xprobe.Rust.Sort.{count-sort_by, All-sort_by, sort_by-Ordered}
use xprobe.Protocol.Event.{Event}
use xprobe.Correlator.Timeline.{
  map, Mark, marks, start_mark, end_mark, by_boundary, by_sequence, sequence_timeline,
  boundary_timeline,
}

module _ {V : Type 0} where
  abbrev pub Earlier : Mark V → Mark V → Type 0
  Earlier a b = a.timestamp ≤ b.timestamp

  -- A mark carries the timestamp of its event.
  abbrev pub IsMark : Mark V → Type 0
  IsMark m = m.timestamp ≡ m.event.timestamp_ns

  abbrev pub is_start : Mark V → Bool
  is_start m = m.boundary == 0

  abbrev pub is_end : Mark V → Bool
  is_end m = if m.boundary == 0 then false else true

  sequence_sound : (a b : Mark V) → by_sequence a b ≡ true → Earlier a b
  sequence_sound a b h = ground arith

  sequence_total : (a b : Mark V) → by_sequence a b ≡ false → Earlier b a
  sequence_total a b h = ground arith

  boundary_sound : (a b : Mark V) → by_boundary a b ≡ true → Earlier a b
  boundary_sound a b h = ground arith

  boundary_total : (a b : Mark V) → by_boundary a b ≡ false → Earlier b a
  boundary_total a b h = ground arith

  Earlier-trans : (a b c : Mark V) → Earlier a b → Earlier b c → Earlier a c
  Earlier-trans a b c h k = omega arith

  pub sequence_timeline-Ordered :
      (starts ends : List (Event V)) → Ordered Earlier (sequence_timeline starts ends)
  unfolding sequence_timeline
  sequence_timeline-Ordered starts ends =
      sort_by-Ordered by_sequence sequence_sound sequence_total Earlier-trans (marks starts ends)

  pub boundary_timeline-Ordered :
      (starts ends : List (Event V)) → Ordered Earlier (boundary_timeline starts ends)
  unfolding boundary_timeline
  boundary_timeline-Ordered starts ends =
      sort_by-Ordered by_boundary boundary_sound boundary_total Earlier-trans (marks starts ends)

  count-start_marks :
      (starts : List (Event V)) → count is_start (map start_mark starts) ≡ length starts
  count-start_marks [] = omega arith
  count-start_marks (e ∷ es) = omega (arith, count-start_marks es)

  count-end_marks : (ends : List (Event V)) → count is_end (map end_mark ends) ≡ length ends
  count-end_marks [] = omega arith
  count-end_marks (e ∷ es) = omega (arith, count-end_marks es)

  no-start_marks : (ends : List (Event V)) → count is_start (map end_mark ends) ≡ 0
  no-start_marks [] = omega arith
  no-start_marks (e ∷ es) = omega (arith, no-start_marks es)

  no-end_marks : (starts : List (Event V)) → count is_end (map start_mark starts) ≡ 0
  no-end_marks [] = omega arith
  no-end_marks (e ∷ es) = omega (arith, no-end_marks es)

  marks_starts : (starts ends : List (Event V)) → count is_start (marks starts ends) ≡ length starts
  unfolding marks
  marks_starts starts ends = omega (
    arith,
    count-append is_start (map start_mark starts) (map end_mark ends),
    count-start_marks starts,
    no-start_marks ends,
  )

  marks_ends : (starts ends : List (Event V)) → count is_end (marks starts ends) ≡ length ends
  unfolding marks
  marks_ends starts ends = omega (
    arith,
    count-append is_end (map start_mark starts) (map end_mark ends),
    count-end_marks ends,
    no-end_marks starts,
  )

  pub sequence_timeline_starts :
      (starts ends : List (Event V))
      → count is_start (sequence_timeline starts ends) ≡ length starts
  unfolding sequence_timeline
  sequence_timeline_starts starts ends =
      count-sort_by by_sequence is_start (marks starts ends) ∙ marks_starts starts ends

  pub sequence_timeline_ends :
      (starts ends : List (Event V)) → count is_end (sequence_timeline starts ends) ≡ length ends
  unfolding sequence_timeline
  sequence_timeline_ends starts ends =
      count-sort_by by_sequence is_end (marks starts ends) ∙ marks_ends starts ends

  pub boundary_timeline_starts :
      (starts ends : List (Event V))
      → count is_start (boundary_timeline starts ends) ≡ length starts
  unfolding boundary_timeline
  boundary_timeline_starts starts ends =
      count-sort_by by_boundary is_start (marks starts ends) ∙ marks_starts starts ends

  pub boundary_timeline_ends :
      (starts ends : List (Event V)) → count is_end (boundary_timeline starts ends) ≡ length ends
  unfolding boundary_timeline
  boundary_timeline_ends starts ends =
      count-sort_by by_boundary is_end (marks starts ends) ∙ marks_ends starts ends

-- What holds of the marks of all starts and of all ends holds along a timeline.
module _ {ℓ} {V : Type 0} (P : Mark V → Type ℓ) where
  All-start_marks :
      (es : List (Event V)) → All (λ e. P (start_mark e)) es → All P (map start_mark es)
  All-start_marks [] h = tt
  All-start_marks (e ∷ es) h = (h.0, All-start_marks es h.1)

  All-end_marks : (es : List (Event V)) → All (λ e. P (end_mark e)) es → All P (map end_mark es)
  All-end_marks [] h = tt
  All-end_marks (e ∷ es) h = (h.0, All-end_marks es h.1)

  All-marks :
      (starts ends : List (Event V))
      → All (λ e. P (start_mark e)) starts
      → All (λ e. P (end_mark e)) ends
      → All P (marks starts ends)
  unfolding marks
  All-marks starts ends h k =
      All-append P (map start_mark starts) (map end_mark ends) (All-start_marks starts h)
        (All-end_marks ends k)

  pub All-sequence_timeline :
      (starts ends : List (Event V))
      → All (λ e. P (start_mark e)) starts
      → All (λ e. P (end_mark e)) ends
      → All P (sequence_timeline starts ends)
  unfolding sequence_timeline
  All-sequence_timeline starts ends h k =
      All-sort_by P by_sequence (marks starts ends) (All-marks starts ends h k)

  pub All-boundary_timeline :
      (starts ends : List (Event V))
      → All (λ e. P (start_mark e)) starts
      → All (λ e. P (end_mark e)) ends
      → All P (boundary_timeline starts ends)
  unfolding boundary_timeline
  All-boundary_timeline starts ends h k =
      All-sort_by P by_boundary (marks starts ends) (All-marks starts ends h k)
