-- ===== src/Correlator/Nearest/Accounting.antt =====
-- `correlate_nearest` of xprobe/correlator/src/lib.rs: its result, its counts and its pairs.
use xprobe.Prelude.{
  ℕ, ◌+◌, ◌≤◌, ◌<◌, ◌≡◌, refl, subst, inl, inr, true, false, Option, some, List, [], ◌∷◌, ◌++◌,
  arith, ◌==◌, if◌then◌else◌, Bool-cases, Option-cases, unwrap_or, length, length-append, All,
  All-append, All-of_forall,
}
use xprobe.Rust.Words.{abs_diff, usize_max}
use xprobe.Rust.Ord.{nat_ord}
use xprobe.Rust.BTreeMap.Groups.{total}
use xprobe.Protocol.Event.{Event}
use xprobe.Correlator.Pairs.{Pair, Outcome}
use xprobe.Correlator.Accounting.{Accounted, Decided}
use xprobe.Correlator.Nearest.{
  Available, Search, index_ends, select_nearest, nearest_loop, correlate_nearest,
}
use xprobe.Correlator.Nearest.Available.{
  IsIndex, Takes, take_end-Takes, index_ends-IsIndex, index_ends-total,
}
use xprobe.Correlator.Nearest.Selection.{Selected, select_nearest-Selected}

-- The outcome is there, and what it promises.
pub record Promises {ℓ} {V : Type 0} (P : Pair V → Type ℓ) (limit starts ends : ℕ)
    (r : Option (Outcome V)) : Type ℓ where
  pub outcome : Outcome V
  pub returns : r ≡ some outcome
  pub decided : Decided limit starts ends outcome
  pub holds : All P outcome.pairs

module _ {V : Type 0} where
  abbrev pub IsDistance : Pair V → Type 0
  IsDistance p = p.latency_ns ≡ abs_diff p.end.timestamp_ns p.start.timestamp_ns

  -- The counts of a search that has ended.
  accounts :
      (limit starts ends : ℕ) (s : Search V)
      → length s.pairs ≤ limit
      → (length s.pairs < limit → length s.pairs + s.unmatched_start ≡ starts)
      → length s.pairs + s.unmatched_start ≤ starts
      → length s.pairs + total s.available ≡ ends
      → (s.reached_limit ≡ true → length s.pairs ≡ limit)
      → Accounted limit starts ends (record {
        pairs = s.pairs;
        unmatched_start = s.unmatched_start;
        unmatched_end = if s.reached_limit then 0 else total s.available;
        ambiguous = 0;
      })
  accounts limit starts ends s w a b c d = elim (Bool-cases s.reached_limit) [
    | inl full ↦ rw full (record {
      within = w;
      all_starts = λ l. omega (arith, a l);
      all_ends = λ l. omega (arith, d full, l);
      some_starts = omega arith;
      some_ends = omega arith;
    })
    | inr open_end ↦ rw open_end (record {
      within = w;
      all_starts = λ l. omega (arith, a l);
      all_ends = λ l. omega arith;
      some_starts = omega arith;
      some_ends = omega arith;
    })
  ]

module _ {ℓ} {V : Type 0} (S E : Event V → Type 0) (P : Pair V → Type ℓ)
    (pairing : (s e : Event V)
      → S s
      → E e
      → P (record {
        start = s;
        end = e;
        latency_ns = abs_diff e.timestamp_ns s.timestamp_ns;
      })) where
  -- A run of the loop from `starts`, `paired` and `ends` ends that are left.
  record Finishes (limit starts paired ends : ℕ) (r : Option (Search V)) : Type ℓ where
    search : Search V
    runs : r ≡ some search
    within : length search.pairs ≤ limit
    starts_seen :
        length search.pairs < limit → length search.pairs + search.unmatched_start ≡ paired + starts
    starts_le : length search.pairs + search.unmatched_start ≤ paired + starts
    ends_seen : length search.pairs + total search.available ≡ paired + ends
    limited : search.reached_limit ≡ true → length search.pairs ≡ limit
    holds : All P search.pairs

  nearest_pair :
      (start : Event V) (selected : ℕ) (m : Available V) (taken : Takes E selected m)
      → S start
      → P (record {
        start = start;
        end = taken.end;
        latency_ns = abs_diff selected start.timestamp_ns;
      })
  nearest_pair start selected m taken h =
      subst
        (λ t.
          P (record { start = start; end = taken.end; latency_ns = abs_diff t start.timestamp_ns }))
        taken.at_selected (pairing start taken.end h taken.allowed)

  nearest_loop-Finishes :
      (limit : ℕ) (starts : List (Event V)) (paired : List (Pair V)) (m : Available V)
      → All S starts
      → IsIndex E m
      → length paired ≤ limit
      → All P paired
      → Finishes limit
          (length starts)
          (length paired)
          (total m)
          (nearest_loop limit starts paired m)
  unfolding nearest_loop
  nearest_loop-Finishes limit [] paired m h i w p = record {
    search = record { pairs = paired; unmatched_start = 0; available = m; reached_limit = false };
    runs = refl;
    within = w;
    starts_seen = λ b. omega arith;
    starts_le = omega arith;
    ends_seen = refl;
    limited = λ e. cc;
    holds = p;
  }
  nearest_loop-Finishes limit (start ∷ starts) paired m h i w p =
      elim (Bool-cases (length paired == limit)) [
        | inl full ↦ record {
          search = record {
            pairs = paired;
            unmatched_start = 0;
            available = m;
            reached_limit = true;
          };
          runs = rw full refl;
          within = w;
          starts_seen = λ b. absurd (ground (arith, full));
          starts_le = omega arith;
          ends_seen = refl;
          limited = λ e. ground (arith, full);
          holds = p;
        }
        | inr more ↦ elim (Option-cases (select_nearest start.timestamp_ns m)) [
          | inl e ↦ record {
            search = record {
              pairs = paired;
              unmatched_start = length (start ∷ starts);
              available = m;
              reached_limit = false;
            };
            runs = rw (e, nearest_loop) (rw more refl);
            within = w;
            starts_seen = λ b. omega arith;
            starts_le = omega arith;
            ends_seen = refl;
            limited = λ e'. cc;
            holds = p;
          }
          | inr (k, e) ↦
              let t = start.timestamp_ns in
              let near = subst (Selected t m) e (select_nearest-Selected t m i.ascending) in
              let taken = take_end-Takes E k m near.has.1 i in
              let pair : Pair V = record {
                start = start;
                end = taken.end;
                latency_ns = abs_diff k t;
              } in
              let grown = length-append paired (pair ∷ []) in
              let rest =
                nearest_loop-Finishes limit starts (paired ++ pair ∷ []) taken.rest h.1 taken.index
                  (ground (arith, grown, more))
                  (All-append P paired (pair ∷ []) p (nearest_pair start k m taken h.0, tt)) in
              record {
                search = rest.search;
                runs = rw (e, nearest_loop) (rw more (rw taken.taken rest.runs));
                within = rest.within;
                starts_seen = λ b. omega (arith, rest.starts_seen b, grown);
                starts_le = omega (arith, rest.starts_le, grown);
                ends_seen = omega (arith, rest.ends_seen, grown, taken.fewer);
                limited = rest.limited;
                holds = rest.holds;
              }
        ]
      ]

  pub correlate_nearest-All :
      (starts ends : List (Event V)) (limit : Option ℕ)
      → All S starts
      → All E ends
      → Promises P
          (unwrap_or limit usize_max)
          (length starts)
          (length ends)
          (correlate_nearest starts ends limit)
  unfolding correlate_nearest
  correlate_nearest-All starts ends limit h k =
      let cap = unwrap_or limit usize_max in
      let m = index_ends ends [] in
      let indexed =
        index_ends-IsIndex E ends [] k (record { ascending = tt; filled = tt; stamped = tt }) in
      let all_ends : total m ≡ length ends =
        unfold total in omega (arith, index_ends-total ends []) in
      let run = nearest_loop-Finishes cap starts [] m h indexed (omega arith) tt in
      let s = run.search in
      record {
        outcome = record {
          pairs = s.pairs;
          unmatched_start = s.unmatched_start;
          unmatched_end = if s.reached_limit then 0 else total s.available;
          ambiguous = 0;
        };
        returns = rw (run.runs) refl;
        decided = record {
          accounted =
              accounts cap (length starts) (length ends) s run.within
                (λ b. omega (arith, run.starts_seen b)) (omega (arith, run.starts_le))
                (omega (arith, run.ends_seen, all_ends)) run.limited;
          certain = refl;
        };
        holds = run.holds;
      }

module _ {V : Type 0} where
  -- For every input `correlate_nearest` returns, so neither of its `expect` calls fails: at most
  -- the limit is paired and nothing is counted twice; below the limit every start and every end
  -- is either in a pair or counted as unmatched; no event is counted as ambiguous; and each
  -- latency is the distance in time of its pair.
  pub correlate_nearest-Promises :
      (starts ends : List (Event V)) (limit : Option ℕ)
      → Promises IsDistance
          (unwrap_or limit usize_max)
          (length starts)
          (length ends)
          (correlate_nearest starts ends limit)
  correlate_nearest-Promises starts ends limit =
      correlate_nearest-All (λ s. Unit) (λ e. Unit) IsDistance (λ s e _ _. refl) starts ends limit
        (All-of_forall (λ s. Unit) (λ s. tt) starts) (All-of_forall (λ e. Unit) (λ e. tt) ends)
