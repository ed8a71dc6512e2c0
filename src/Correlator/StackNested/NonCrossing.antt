-- ===== src/Correlator/StackNested/NonCrossing.antt =====
-- Intervals of one thread that do not cross: two pairs, and an open start against the closed pairs of
-- `correlate_stack_nested` of xprobe/correlator/src/lib.rs.
use xprobe.Prelude.{
  ℕ, ◌≤◌, ◌≡◌, sym, ◌∙◌, ◌⊎◌, inl, inr, List, [], ◌∷◌, ◌++◌, arith, All, All-append, All-both,
}
use xprobe.Rust.Ord.{nat_ord, pair_ord}
use xprobe.Protocol.Event.{Event}
use xprobe.Correlator.Pairs.{Pair}
use xprobe.Correlator.FirstAfter.{make_pair}
use xprobe.Correlator.StackNested.{thread_of}

module _ {V : Type 0} where
  -- One interval ends before the other begins, or lies inside it.
  abbrev pub Nests : Pair V → Pair V → Type 0
  Nests p q =
      ((p.end.timestamp_ns ≤ q.start.timestamp_ns) ⊎ (q.end.timestamp_ns ≤ p.start.timestamp_ns))
      ⊎ (((q.start.timestamp_ns ≤ p.start.timestamp_ns) × (p.end.timestamp_ns ≤ q.end.timestamp_ns))
          ⊎ ((p.start.timestamp_ns ≤ q.start.timestamp_ns)
              × (q.end.timestamp_ns ≤ p.end.timestamp_ns)))

  -- So for two pairs of one thread.
  abbrev pub NonCrossing : Pair V → Pair V → Type 0
  NonCrossing p q = p.start.pid ≡ q.start.pid → p.start.tid ≡ q.start.tid → Nests p q

  abbrev pub AllNonCrossing : List (Pair V) → Type 0
  AllNonCrossing pairs = All (λ p. All (NonCrossing p) pairs) pairs

  -- A start that is still open at a time, against a pair that is closed.
  abbrev pub Clear : Event V → Pair V → Type 0
  Clear s q =
      thread_of s ≡ thread_of q.start
      → (q.end.timestamp_ns ≤ s.timestamp_ns) ⊎ (s.timestamp_ns ≤ q.start.timestamp_ns)

  abbrev pub InTime : Event V → Event V → Type 0
  InTime a b = a.timestamp_ns ≤ b.timestamp_ns

  pub record OpenIn (now : ℕ) (pairs : List (Pair V)) (key : ℕ × ℕ) (s : Event V) : Type 0 where
    pub on_thread : thread_of s ≡ key
    pub opened : s.timestamp_ns ≤ now
    pub clear : All (Clear s) pairs

  NonCrossing-sym : (p q : Pair V) → NonCrossing p q → NonCrossing q p
  NonCrossing-sym p q h a b = elim (h (sym a) (sym b)) [
    | inl (inl x) ↦ inl (inr x)
    | inl (inr x) ↦ inl (inl x)
    | inr (inl x) ↦ inr (inr x)
    | inr (inr x) ↦ inr (inl x)
  ]

  NonCrossing-self : (p : Pair V) → NonCrossing p p
  NonCrossing-self p a b = inr (inl (omega arith, omega arith))

  -- A pair more.
  pub NonCrossing-last :
      (pairs : List (Pair V)) (n : Pair V)
      → AllNonCrossing pairs
      → All (NonCrossing n) pairs
      → AllNonCrossing (pairs ++ n ∷ [])
  NonCrossing-last pairs n h k =
      let with_last =
        All-both {P = λ p. All (NonCrossing p) pairs} {Q = NonCrossing n}
          {R = λ p. All (NonCrossing p) (pairs ++ n ∷ [])}
          (λ p a b. All-append (NonCrossing p) pairs (n ∷ []) a (NonCrossing-sym n p b, tt)) pairs h
          k in
      All-append (λ p. All (NonCrossing p) (pairs ++ n ∷ [])) pairs (n ∷ []) with_last
        (All-append (NonCrossing n) pairs (n ∷ []) k (NonCrossing-self n, tt), tt)

  -- The new pair of the innermost open start.
  pub closing-NonCrossing :
      (now : ℕ) (pairs : List (Pair V)) (key : ℕ × ℕ) (s e : Event V)
      → OpenIn now pairs key s
      → All (λ q. q.end.timestamp_ns ≤ e.timestamp_ns) pairs
      → All (NonCrossing (make_pair s e)) pairs
  unfolding make_pair
  closing-NonCrossing now pairs key s e o closed =
      All-both {P = Clear s} {Q = λ q. q.end.timestamp_ns ≤ e.timestamp_ns}
        {R = NonCrossing (make_pair s e)}
        (λ q c l a b. elim (c (ground (arith, a, b))) [
          | inl before ↦ inl (inr before)
          | inr inside ↦ inr (inr (inside, l))
        ])
        pairs o.clear closed

  -- An open start that is clear of one pair more.
  pub OpenIn-last :
      (now : ℕ) (pairs : List (Pair V)) (key : ℕ × ℕ) (s : Event V) (n : Pair V)
      → OpenIn now pairs key s
      → (thread_of n.start ≡ key → s.timestamp_ns ≤ n.start.timestamp_ns)
      → OpenIn now (pairs ++ n ∷ []) key s
  OpenIn-last now pairs key s n o h = record {
    on_thread = o.on_thread;
    opened = o.opened;
    clear =
        All-append (Clear s) pairs (n ∷ []) o.clear
          ((λ same. inr (h (sym same ∙ o.on_thread))), tt);
  }
