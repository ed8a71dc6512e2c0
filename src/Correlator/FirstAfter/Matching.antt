-- ===== src/Correlator/FirstAfter/Matching.antt =====
-- Which events `correlate_first_after` pairs.
use xprobe.Prelude.{
  ℕ, ◌+◌, ◌≤◌, ◌<◌, ◌≡◌, subst, inl, inr, Option, List, [], ◌∷◌, ◌++◌, arith, ltb, ◌==◌, Bool-cases,
  unwrap_or, length, List-cases, All, All-append, All-of_forall,
}
use xprobe.Rust.Words.{u64_mod, sub_u64_exact, usize_max}
use xprobe.Protocol.Event.{Event}
use xprobe.Correlator.Pairs.{Pair}
use xprobe.Correlator.FirstAfter.{
  passed_before, skip_before, make_pair, first_after_loop, correlate_first_after,
}

module _ {V : Type 0} where
  -- The timestamps are those of u64 values.
  abbrev pub IsU64Stamped : Event V → Type 0
  IsU64Stamped e = e.timestamp_ns < u64_mod

  -- The latency is the time from the start to the end.
  abbrev pub IsCausal : Pair V → Type 0
  IsCausal p = p.start.timestamp_ns + p.latency_ns ≡ p.end.timestamp_ns

  pub make_pair-IsCausal :
      (start end : Event V)
      → start.timestamp_ns ≤ end.timestamp_ns
      → IsU64Stamped end
      → IsCausal (make_pair start end)
  unfolding make_pair
  make_pair-IsCausal start end h k = sub_u64_exact end.timestamp_ns start.timestamp_ns h k

  -- The first end that is left is not before the start.
  pub le-skip_before :
      (t : ℕ) (ends : List (Event V)) {end : Event V} {rest : List (Event V)}
      → skip_before t ends ≡ end ∷ rest
      → t ≤ end.timestamp_ns
  unfolding skip_before
  le-skip_before t [] e = absurd (ground arith)
  le-skip_before t (x ∷ ends) {end} {rest} e =
      ground (arith, le-skip_before t ends {end = end} {rest = rest})

  pub All-skip_before {ℓ} :
      (P : Event V → Type ℓ) (t : ℕ) (ends : List (Event V))
      → All P ends
      → All P (skip_before t ends)
  unfolding skip_before
  All-skip_before P t [] h = tt
  All-skip_before P t (x ∷ ends) h = elim (Bool-cases (ltb x.timestamp_ns t)) [
    | inl e ↦ rw e (All-skip_before P t ends h.1)
    | inr e ↦ rw e h
  ]

-- Whatever holds of each start and each later end that the code may pair holds of its pairs.
module _ {ℓ} {V : Type 0} (S E : Event V → Type 0) (P : Pair V → Type ℓ)
    (pairing : (s e : Event V)
      → S s
      → E e
      → s.timestamp_ns ≤ e.timestamp_ns
      → P (make_pair s e)) where
  loop-All :
      (limit : ℕ) (starts ends : List (Event V)) (paired : List (Pair V)) (passed : ℕ)
      → All S starts
      → All E ends
      → All P paired
      → All P (first_after_loop limit starts ends paired passed).pairs
  unfolding first_after_loop
  loop-All limit [] ends paired passed h k l = l
  loop-All limit (start ∷ starts) ends paired passed h k l =
      let t = start.timestamp_ns in
      elim (List-cases (skip_before t ends)) [
        | inl e ↦ rw (e, first_after_loop) (ground arith)
        | inr (end, rest, e) ↦
            let left = subst (All E) e (All-skip_before E t ends k) in
            let paired_up = pairing start end h.0 left.0 (le-skip_before t ends e) in
            rw (e, first_after_loop)
              (elim (Bool-cases (length paired == limit)) [
                | inl full ↦ rw full l
                | inr more ↦ rw more (
                    loop-All limit starts rest (paired ++ make_pair start end ∷ [])
                      (passed + passed_before t ends) h.1 left.1
                      (All-append P paired (make_pair start end ∷ []) l (paired_up, tt)))
              ])
      ]

  pub correlate_first_after-All :
      (starts ends : List (Event V)) (limit : Option ℕ)
      → All S starts
      → All E ends
      → All P (correlate_first_after starts ends limit).pairs
  unfolding correlate_first_after
  correlate_first_after-All starts ends limit h k =
      loop-All (unwrap_or limit usize_max) starts ends [] 0 h k tt

module _ {V : Type 0} where
  -- When the timestamps of the ends are u64 values, no subtraction of `correlate_first_after`
  -- wraps: each latency is exactly the time from its start to its end.
  pub correlate_first_after-IsCausal :
      (starts ends : List (Event V)) (limit : Option ℕ)
      → All IsU64Stamped ends
      → All IsCausal (correlate_first_after starts ends limit).pairs
  correlate_first_after-IsCausal starts ends limit =
      correlate_first_after-All (λ s. Unit) IsU64Stamped IsCausal
        (λ s e _ u h. make_pair-IsCausal s e h u) starts ends limit
        (All-of_forall (λ s. Unit) (λ s. tt) starts)
