-- ===== src/Correlator/Accounting.antt =====
-- What the matching functions of xprobe/correlator/src/lib.rs promise about their counts.
use xprobe.Prelude.{
  ℕ, ◌+◌, ◌≤◌, ◌<◌, ◌≡◌, Option, none, some, List, length, length-take, arith, unwrap_or, All,
  All-take,
}
use xprobe.Rust.Words.{usize_max}
use xprobe.Rust.Sort.{length-sort_by, All-sort_by}
use xprobe.Correlator.Pairs.{Pair, Outcome, sort_pairs, truncate}

module _ {V : Type 0} where
  -- The outcome of `starts` starts and `ends` ends. No event is counted twice, and below the limit
  -- each is counted.
  pub record Accounted (limit starts ends : ℕ) (o : Outcome V) : Type 0 where
    pub within : length o.pairs ≤ limit
    pub all_starts :
        length o.pairs < limit → length o.pairs + o.unmatched_start + o.ambiguous ≡ starts
    pub all_ends : length o.pairs < limit → length o.pairs + o.unmatched_end ≡ ends
    pub some_starts : length o.pairs + o.unmatched_start + o.ambiguous ≤ starts
    pub some_ends : length o.pairs + o.unmatched_end ≤ ends

  -- Nothing is ambiguous either: what is not in a pair is unmatched.
  pub record Decided (limit starts ends : ℕ) (o : Outcome V) : Type 0 where
    pub accounted : Accounted limit starts ends o
    pub certain : o.ambiguous ≡ 0

  pub length-sort_pairs : (pairs : List (Pair V)) → length (sort_pairs pairs) ≡ length pairs
  unfolding sort_pairs
  length-sort_pairs pairs = length-sort_by _ pairs

  -- From the counts before `truncate`. A slice has at most `usize::MAX` elements.
  pub truncate-Accounted :
      (limit : Option ℕ) (full : List (Pair V)) (us ue amb starts ends : ℕ)
      → length full + us + amb ≡ starts
      → length full + ue ≡ ends
      → starts ≤ usize_max
      → Accounted (unwrap_or limit usize_max) starts ends (record {
        pairs = truncate limit (sort_pairs full);
        unmatched_start = us;
        unmatched_end = ue;
        ambiguous = amb;
      })
  unfolding truncate
  truncate-Accounted none full us ue amb starts ends h k u = omega (arith, length-sort_pairs full)
  truncate-Accounted (some n) full us ue amb starts ends h k u =
      ground (arith, length-sort_pairs full, length-take n (sort_pairs full))

  pub All-truncate {ℓ} :
      (P : Pair V → Type ℓ) (limit : Option ℕ) (full : List (Pair V))
      → All P full
      → All P (truncate limit (sort_pairs full))
  unfolding truncate sort_pairs
  All-truncate P none full h = All-sort_by P _ full h
  All-truncate P (some n) full h = All-take P n _ (All-sort_by P _ full h)
