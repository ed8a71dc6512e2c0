-- ===== src/Correlator/FirstAfter.antt =====
-- `correlate_first_after` of xprobe/correlator/src/lib.rs. An index that only moves forward through
-- `ends` is the suffix that is left.
pub mod Accounting
pub mod Matching
pub mod Optimal
use xprobe.Prelude.{
  ℕ, ◌+◌, Option, List, [], ◌∷◌, ◌++◌, length, ltb, ◌==◌, unwrap_or, if◌then◌else◌,
}
use xprobe.Rust.Words.{sub_u64, usize_max}
use xprobe.Protocol.Event.{Event}
use xprobe.Correlator.Pairs.{Pair, Outcome}

module _ {V : Type 0} where
  -- `while end_index < ends.len() && ends[end_index].timestamp_ns < start.timestamp_ns`: how many
  -- ends are passed over, and those that are left.
  unfoldable pub passed_before : ℕ → List (Event V) → ℕ
  passed_before t [] = 0
  passed_before t (end ∷ ends) = if ltb end.timestamp_ns t then passed_before t ends + 1 else 0

  unfoldable pub skip_before : ℕ → List (Event V) → List (Event V)
  skip_before t [] = []
  skip_before t (end ∷ ends) = if ltb end.timestamp_ns t then skip_before t ends else end ∷ ends

  unfoldable pub make_pair : Event V → Event V → Pair V
  unfolding sub_u64
  make_pair start end = record {
    start = start;
    end = end;
    latency_ns = sub_u64 end.timestamp_ns start.timestamp_ns;
  }

  -- The loop over the starts: the result is the outcome with `limit` applied. `paired` are the pairs
  -- so far.
  unfoldable pub first_after_loop :
      (limit : ℕ) (starts ends : List (Event V)) (paired : List (Pair V)) (unmatched_end : ℕ)
      → Outcome V
  unfolding passed_before skip_before make_pair
  first_after_loop limit [] ends paired unmatched_end = record {
    pairs = paired;
    unmatched_start = 0;
    unmatched_end =
        if ltb (length paired) limit then unmatched_end + length ends else unmatched_end;
    ambiguous = 0;
  }
  first_after_loop limit (start ∷ starts) ends paired unmatched_end =
      let unmatched_end' = unmatched_end + passed_before start.timestamp_ns ends in
      if length paired == limit
      then record {
        pairs = paired;
        unmatched_start = 0;
        unmatched_end = unmatched_end;
        ambiguous = 0;
      }
      else elim (skip_before start.timestamp_ns ends) [
        | [] ↦ record {
          pairs = paired;
          unmatched_start = length (start ∷ starts);
          unmatched_end = unmatched_end';
          ambiguous = 0;
        }
        | end ∷ rest ↦
            first_after_loop limit starts rest (paired ++ make_pair start end ∷ []) unmatched_end'
      ]

  unfoldable pub correlate_first_after :
      (starts ends : List (Event V)) (limit : Option ℕ) → Outcome V
  unfolding first_after_loop
  correlate_first_after starts ends limit =
      first_after_loop (unwrap_or limit usize_max) starts ends [] 0
