-- ===== src/Correlator/Nearest.antt =====
-- `correlate_nearest` of xprobe/correlator/src/lib.rs. `none` is a panic: an `expect` that fails.
pub mod Available
pub mod Selection
pub mod Accounting
use xprobe.Prelude.{
  ℕ, ◌-◌, Bool, true, false, Option, none, some, List, [], ◌∷◌, ◌++◌, length, leb, ltb, ◌==◌,
  unwrap_or, is_empty, if◌then◌else◌, and_then,
}
use xprobe.Rust.Words.{abs_diff, usize_max}
use xprobe.Rust.Ord.{nat_ord}
use xprobe.Rust.BTreeMap.{BTreeMap, get, insert, remove}
use xprobe.Rust.BTreeMap.Groups.{push, pop, total}
use xprobe.Protocol.Event.{Event}
use xprobe.Correlator.Pairs.{Pair, Outcome}

abbrev pub Available : Type 0 → Type 0
Available V = BTreeMap ℕ (List (Event V))

pub record Search (V : Type 0) : Type 0 where
  pub pairs : List (Pair V)
  pub unmatched_start : ℕ
  pub available : Available V
  pub reached_limit : Bool

-- The closer of the two; the later one at equal distance.
abbrev pub closer : ℕ → Option ℕ → Option ℕ → Option ℕ
closer t (some before) (some after) = some (if ltb (t - before) (after - t) then before else after)
closer t (some timestamp) none = some timestamp
closer t none (some timestamp) = some timestamp
closer t none none = none

module _ {V : Type 0} where
  unfoldable pub index_ends : List (Event V) → Available V → Available V
  unfolding push
  index_ends [] m = m
  index_ends (end ∷ ends) m = index_ends ends (push end.timestamp_ns end m)

  -- `range(..=t).next_back()` and `range(t..).next()`: the nearest keys on both sides.
  unfoldable pub last_up_to : ℕ → Available V → Option ℕ
  last_up_to t [] = none
  last_up_to t ((k, g) ∷ m) = if leb k t then some (unwrap_or (last_up_to t m) k) else none

  unfoldable pub first_from : ℕ → Available V → Option ℕ
  first_from t [] = none
  first_from t ((k, g) ∷ m) = if leb t k then some k else first_from t m

  unfoldable pub select_nearest : ℕ → Available V → Option ℕ
  unfolding last_up_to first_from
  select_nearest t m = closer t (last_up_to t m) (first_from t m)

  -- The end that is taken from the bucket of a timestamp, and the map without it.
  unfoldable pub take_end : ℕ → Available V → Option (Event V × Available V)
  unfolding get insert remove pop
  take_end selected m = and_then (get selected m) λ bucket.
      and_then (pop bucket)
        λ p. some (p.0, if is_empty p.1 then remove selected m else insert selected p.1 m)

  unfoldable pub nearest_loop :
      (limit : ℕ) (starts : List (Event V)) (paired : List (Pair V))
      → Available V
      → Option (Search V)
  unfolding select_nearest take_end abs_diff
  nearest_loop limit [] paired m =
      some (record { pairs = paired; unmatched_start = 0; available = m; reached_limit = false })
  nearest_loop limit (start ∷ starts) paired m =
      if length paired == limit
      then some
          (record { pairs = paired; unmatched_start = 0; available = m; reached_limit = true })
      else elim (select_nearest start.timestamp_ns m) [
        | none ↦ some (record {
          pairs = paired;
          unmatched_start = length (start ∷ starts);
          available = m;
          reached_limit = false;
        })
        | some selected ↦ elim (take_end selected m) [
          | none ↦ none
          | some (end, rest) ↦
              nearest_loop limit starts
                (paired
                  ++ record {
                    start = start;
                    end = end;
                    latency_ns = abs_diff selected start.timestamp_ns;
                  }
                    ∷ [])
                rest
        ]
      ]

  unfoldable pub correlate_nearest :
      (starts ends : List (Event V)) (limit : Option ℕ) → Option (Outcome V)
  unfolding index_ends nearest_loop total
  correlate_nearest starts ends limit =
      and_then (nearest_loop (unwrap_or limit usize_max) starts [] (index_ends ends [])) λ s.
        some (record {
          pairs = s.pairs;
          unmatched_start = s.unmatched_start;
          unmatched_end = if s.reached_limit then 0 else total s.available;
          ambiguous = 0;
        })
