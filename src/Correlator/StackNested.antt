-- ===== src/Correlator/StackNested.antt =====
-- `correlate_stack_nested` of xprobe/correlator/src/lib.rs.
pub mod Accounting
pub mod Matching
pub mod NonCrossing
pub mod Nesting
use xprobe.Prelude.{
  ℕ, ◌+◌, Option, none, some, List, [], ◌∷◌, ◌++◌, length, ltb, ◌==◌, unwrap_or, and_then,
  if◌then◌else◌,
}
use xprobe.Rust.Words.{usize_max}
use xprobe.Rust.Ord.{nat_ord, pair_ord}
use xprobe.Rust.BTreeMap.{BTreeMap, get, insert}
use xprobe.Rust.BTreeMap.Groups.{push, pop, total}
use xprobe.Protocol.Event.{Event}
use xprobe.Correlator.Pairs.{Pair, Outcome, sort_pairs}
use xprobe.Correlator.FirstAfter.{make_pair}
use xprobe.Correlator.Timeline.{Mark, boundary_timeline}

pub record Stacks (V : Type 0) : Type 0 where
  pub stacks : BTreeMap (ℕ × ℕ) (List (Event V))
  pub pairs : List (Pair V)
  pub unmatched_end : ℕ

module _ {V : Type 0} where
  abbrev pub thread_of : Event V → ℕ × ℕ
  thread_of event = (event.pid, event.tid)

  -- `stacks.get_mut(&key).and_then(Vec::pop)`: the innermost open start and the stack under it.
  unfoldable pub innermost : Stacks V → ℕ × ℕ → Option (Event V × List (Event V))
  unfolding get pop
  innermost s key = and_then (get key s.stacks) pop

  unfoldable pub stack_step : (limit : ℕ) → Stacks V → Mark V → Stacks V
  unfolding innermost push insert make_pair
  stack_step limit s mark =
      let event = mark.event in
      let key = thread_of event in
      if mark.boundary == 0
      then record s { stacks = push key event s.stacks }
      else elim (innermost s key) [
        | none ↦ record s { unmatched_end = s.unmatched_end + 1 }
        | some (start, below) ↦ record s {
          stacks = insert key below s.stacks;
          pairs =
              if ltb (length s.pairs) limit then s.pairs ++ make_pair start event ∷ [] else s.pairs;
        }
      ]

  unfoldable pub stack_loop : (limit : ℕ) → List (Mark V) → Stacks V → Stacks V
  unfolding stack_step
  stack_loop limit [] s = s
  stack_loop limit (mark ∷ timeline) s = stack_loop limit timeline (stack_step limit s mark)

  unfoldable pub correlate_stack_nested :
      (starts ends : List (Event V)) (limit : Option ℕ) → Outcome V
  unfolding stack_loop boundary_timeline sort_pairs total
  correlate_stack_nested starts ends limit =
      let s =
        stack_loop (unwrap_or limit usize_max) (boundary_timeline starts ends)
          (record { stacks = []; pairs = []; unmatched_end = 0 }) in
      record {
        pairs = sort_pairs s.pairs;
        unmatched_start = total s.stacks;
        unmatched_end = s.unmatched_end;
        ambiguous = 0;
      }
