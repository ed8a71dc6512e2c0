-- ===== src/Correlator/FirstAfter/Optimal.antt =====
-- `correlate_first_after` against every order-preserving way to pair the events.
use xprobe.Prelude.{
  ℕ, suc, ◌+◌, ◌≤◌, ◌<◌, ◌≡◌, inl, inr, Option, List, [], ◌∷◌, ◌++◌, length, length-append, arith,
  List-cases, ltb, true, All-imp, Bool-cases, if◌then◌else◌, Ordered, All, unwrap_or,
}
use xprobe.Rust.Words.{usize_max}
use xprobe.Protocol.Event.{Event}
use xprobe.Correlator.Pairs.{Pair}
use xprobe.Correlator.FirstAfter.{
  passed_before, skip_before, make_pair, first_after_loop, correlate_first_after,
}

module _ {V : Type 0} where
  -- A way to pair `n` starts with ends, in order, no end before its start.
  pub data Plan : List (Event V) → List (Event V) → ℕ → Type 0 where
    stop : Plan [] [] 0
    skip_start :
        (start : Event V) {starts ends : List (Event V)} {n : ℕ}
        → Plan starts ends n
        → Plan (start ∷ starts) ends n
    skip_end :
        (end : Event V) {starts ends : List (Event V)} {n : ℕ}
        → Plan starts ends n
        → Plan starts (end ∷ ends) n
    pair_up :
        (start end : Event V) {starts ends : List (Event V)} {n : ℕ}
        → start.timestamp_ns ≤ end.timestamp_ns
        → Plan starts ends n
        → Plan (start ∷ starts) (end ∷ ends) (suc n)

  abbrev pub Before : Event V → Event V → Type 0
  Before a b = a.timestamp_ns ≤ b.timestamp_ns

  Before-all :
      (e s x : Event V)
      → ltb e.timestamp_ns s.timestamp_ns ≡ true
      → Before s x
      → e.timestamp_ns < x.timestamp_ns
  Before-all e s x early b = ground arith

  -- How many pairs the greedy scan finds.
  greedy : List (Event V) → List (Event V) → ℕ
  greedy [] ends = 0
  greedy (s ∷ ss) [] = 0
  greedy (s ∷ ss) (e ∷ es) =
      let later = greedy (s ∷ ss) es in
      let next = greedy ss es in if ltb e.timestamp_ns s.timestamp_ns then later else suc next

  greedy-nil : (ss : List (Event V)) → greedy ss [] ≡ 0
  unfolding greedy
  greedy-nil [] = omega arith
  greedy-nil (s ∷ ss) = omega arith

  greedy-late :
      (e : Event V) (ss es : List (Event V))
      → All (λ s. e.timestamp_ns < s.timestamp_ns) ss
      → greedy ss (e ∷ es) ≡ greedy ss es
  unfolding greedy
  greedy-late e [] es h = omega arith
  greedy-late e (s ∷ ss) es h = ground (arith, h.0)

  -- One more start never hurts, if one more end helps by at most one.
  greedy-le_cons_start :
      (s : Event V) (ss es : List (Event V))
      → All (Before s) ss
      → ((e : Event V) (es' : List (Event V)) → greedy ss (e ∷ es') ≤ suc (greedy ss es'))
      → greedy ss es ≤ greedy (s ∷ ss) es
  unfolding greedy
  greedy-le_cons_start s ss [] h one = omega (arith, greedy-nil ss)
  greedy-le_cons_start s ss (e ∷ es) h one = elim (Bool-cases (ltb e.timestamp_ns s.timestamp_ns)) [
    | inl early ↦
        let late =
          greedy-late e ss es
            (All-imp (λ (x : Event V) (b : Before s x). Before-all e s x early b) ss h) in
        rw early (omega (arith, late, greedy-le_cons_start s ss es h one))
    | inr on_time ↦ rw on_time (one e es)
  ]

  greedy-cons_end_le :
      (ss : List (Event V)) (e : Event V) (es : List (Event V))
      → Ordered Before ss
      → greedy ss (e ∷ es) ≤ suc (greedy ss es)
  unfolding greedy
  greedy-cons_end_le [] e es h = omega arith
  greedy-cons_end_le (s ∷ ss) e es h =
      let more =
        greedy-le_cons_start s ss es h.0
          (λ (e' : Event V) (es' : List (Event V)). greedy-cons_end_le ss e' es' h.1) in
      ground (arith, more)

  -- One more start helps by at most one, if one more end never hurts.
  greedy-cons_start_le :
      (s : Event V) (ss es : List (Event V))
      → ((e : Event V) (es' : List (Event V)) → greedy ss es' ≤ greedy ss (e ∷ es'))
      → greedy (s ∷ ss) es ≤ suc (greedy ss es)
  unfolding greedy
  greedy-cons_start_le s ss [] grows = omega arith
  greedy-cons_start_le s ss (e ∷ es) grows =
      ground (arith, grows e es, greedy-cons_start_le s ss es grows)

  greedy-le_cons_end :
      (ss : List (Event V)) (e : Event V) (es : List (Event V)) → greedy ss es ≤ greedy ss (e ∷ es)
  unfolding greedy
  greedy-le_cons_end [] e es = omega arith
  greedy-le_cons_end (s ∷ ss) e es =
      ground (arith, greedy-cons_start_le s ss es (greedy-le_cons_end ss))

  Plan-le-greedy :
      {starts ends : List (Event V)} {n : ℕ}
      → Plan starts ends n
      → Ordered Before starts
      → n ≤ greedy starts ends
  unfolding greedy
  Plan-le-greedy stop h = omega arith
  Plan-le-greedy (skip_start s {starts = ss} {ends = es} p) h =
      let kept =
        greedy-le_cons_start s ss es h.0
          (λ (e : Event V) (es' : List (Event V)). greedy-cons_end_le ss e es' h.1) in
      omega (arith, kept, Plan-le-greedy p h.1)
  Plan-le-greedy (skip_end e {starts = ss} {ends = es} p) h =
      omega (arith, greedy-le_cons_end ss e es, Plan-le-greedy p h)
  Plan-le-greedy (pair_up s e {starts = ss} {ends = es} le p) h =
      ground (arith, Plan-le-greedy p h.1)

  greedy_step :
      (s : Event V) (ss es : List (Event V))
      → greedy (s ∷ ss) es
        ≡ (elim (skip_before s.timestamp_ns es) [ [] ↦ 0 | e ∷ rest ↦ suc (greedy ss rest) ])
  unfolding greedy skip_before
  greedy_step s ss [] = omega arith
  greedy_step s ss (e ∷ es) = ground (arith, greedy_step s ss es)

  loop-eq-greedy :
      (limit : ℕ) (starts ends : List (Event V)) (paired : List (Pair V)) (passed : ℕ)
      → length paired + length starts ≤ limit
      → length (first_after_loop limit starts ends paired passed).pairs
        ≡ length paired + greedy starts ends
  unfolding first_after_loop
  loop-eq-greedy limit [] ends paired passed h = unfold greedy in omega arith
  loop-eq-greedy limit (start ∷ starts) ends paired passed h =
      elim (List-cases (skip_before start.timestamp_ns ends)) [
        | inl e ↦ ground (arith, greedy_step start starts ends)
        | inr (end, rest, e) ↦ ground (
          arith,
          greedy_step start starts ends,
          length-append paired (make_pair start end ∷ []),
          loop-eq-greedy limit starts rest (paired ++ make_pair start end ∷ [])
              (passed + passed_before start.timestamp_ns ends),
        )
      ]

  -- If the starts are in order of time and the limit is no less than their number, the greedy
  -- `correlate_first_after` is optimal: no order-preserving plan that pairs each start with an
  -- end not before it has more pairs.
  pub correlate_first_after_optimal :
      (starts ends : List (Event V)) (limit : Option ℕ) {n : ℕ}
      → Ordered Before starts
      → length starts ≤ unwrap_or limit usize_max
      → Plan starts ends n
      → n ≤ length (correlate_first_after starts ends limit).pairs
  unfolding correlate_first_after
  correlate_first_after_optimal starts ends limit h k plan = omega (
    arith,
    Plan-le-greedy plan h,
    loop-eq-greedy (unwrap_or limit usize_max) starts ends [] 0 (omega arith),
  )
