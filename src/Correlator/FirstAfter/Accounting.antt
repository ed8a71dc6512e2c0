-- ===== src/Correlator/FirstAfter/Accounting.antt =====
-- Where every event goes in `correlate_first_after`.
use native.Mathlib.Nat.{zero-add}
use xprobe.Prelude.{
  ℕ, ◌+◌, ◌≤◌, ◌≡◌, refl, inl, inr, Option, List, [], ◌∷◌, ◌++◌, length, length-append, arith,
  List-cases, unwrap_or,
}
use xprobe.Rust.Words.{usize_max}
use xprobe.Protocol.Event.{Event}
use xprobe.Correlator.Pairs.{Pair}
use xprobe.Correlator.Accounting.{Accounted, Decided}
use xprobe.Correlator.FirstAfter.{
  passed_before, skip_before, make_pair, first_after_loop, correlate_first_after,
}

module _ {V : Type 0} where
  -- What is passed over and what is left make up the ends.
  pub length-skip_before :
      (t : ℕ) (ends : List (Event V))
      → passed_before t ends + length (skip_before t ends) ≡ length ends
  unfolding passed_before skip_before
  length-skip_before t [] = omega arith
  length-skip_before t (end ∷ ends) = ground (arith, length-skip_before t ends)

  loop-Accounted :
      (limit : ℕ) (starts ends : List (Event V)) (paired : List (Pair V)) (passed : ℕ)
      → length paired ≤ limit
      → Accounted limit
          (length paired + length starts)
          (length paired + passed + length ends)
          (first_after_loop limit starts ends paired passed)
  unfolding first_after_loop
  loop-Accounted limit [] ends paired passed h = ground arith
  loop-Accounted limit (start ∷ starts) ends paired passed h =
      let t = start.timestamp_ns in
      elim (List-cases (skip_before t ends)) [
        | inl e ↦ rw (e, first_after_loop) (ground (arith, length-skip_before t ends))
        | inr (end, rest, e) ↦
            let pairs = paired ++ make_pair start end ∷ [] in
            rw (e, first_after_loop)
              (ground (
                arith,
                length-skip_before t ends,
                length-append paired (make_pair start end ∷ []),
                loop-Accounted limit starts rest pairs (passed + passed_before t ends),
              ))
      ]

  loop-certain :
      (limit : ℕ) (starts ends : List (Event V)) (paired : List (Pair V)) (passed : ℕ)
      → (first_after_loop limit starts ends paired passed).ambiguous ≡ 0
  unfolding first_after_loop
  loop-certain limit [] ends paired passed = refl
  loop-certain limit (start ∷ starts) ends paired passed =
      let t = start.timestamp_ns in
      elim (List-cases (skip_before t ends)) [
        | inl e ↦ rw (e, first_after_loop) (ground arith)
        | inr (end, rest, e) ↦
            rw (e, first_after_loop)
              (ground (
                arith,
                loop-certain limit starts rest (paired ++ make_pair start end ∷ [])
                    (passed + passed_before t ends),
              ))
      ]

  -- At most the limit is paired by `correlate_first_after` and nothing is counted twice; below
  -- the limit every start and every end is either in a pair or counted as unmatched; and no event
  -- is counted as ambiguous.
  pub correlate_first_after-Decided :
      (starts ends : List (Event V)) (limit : Option ℕ)
      → Decided
          (unwrap_or limit usize_max)
          (length starts)
          (length ends)
          (correlate_first_after starts ends limit)
  unfolding correlate_first_after
  correlate_first_after-Decided starts ends limit =
      let cap = unwrap_or limit usize_max in
      record {
        accounted = simp zero-add at (loop-Accounted cap starts ends [] 0 (omega arith));
        certain = loop-certain cap starts ends [] 0;
      }
