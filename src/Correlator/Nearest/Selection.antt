-- ===== src/Correlator/Nearest/Selection.antt =====
-- The timestamp that `correlate_nearest` of xprobe/correlator/src/lib.rs selects for a start.
use xprobe.Prelude.{
  All-both, ℕ, ◌-◌, ◌≤◌, ◌<◌, ◌≡◌, refl, sym, subst, ◌⊎◌, inl, inr, Option, none, some, List, [],
  ◌∷◌, arith, ltb, leb, if◌then◌else◌, leb→le, Bool-cases, Option-cases, All, All-imp,
}
use native.Mathlib.Nat.{le_refl, lt_trans}
use Prim.Native.Nat.{compare, Ordering}
use xprobe.Rust.Words.{abs_diff}
use xprobe.Rust.Ord.{nat_ord}
use xprobe.Rust.BTreeMap.{get, Ascends, Sooner, All-get}
use xprobe.Protocol.Event.{Event}
use xprobe.Correlator.Nearest.{Available, last_up_to, first_from, select_nearest}

lt_of_compare_lt : (j k : ℕ) → compare j k ≡ Ordering.lt → j < k
lt_of_compare_lt j k h = ground arith

le_of_compare_lt : (j k : ℕ) → compare j k ≡ Ordering.lt → j ≤ k
le_of_compare_lt j k h = ground arith

module _ {V : Type 0} where
  -- The map has a bucket under the key.
  abbrev pub Has : ℕ → Available V → Type 0
  Has k m = (bucket : List (Event V)) × (get k m ≡ some bucket)

  get_tail :
      (j k : ℕ) (g : List (Event V)) (m : Available V) {b : List (Event V)}
      → Ascends ((j, g) ∷ m)
      → get k m ≡ some b
      → get k ((j, g) ∷ m) ≡ some b
  unfolding get
  get_tail j k g m h e =
      let later : compare j k ≡ Ordering.lt = All-get (Sooner (j, g)) k m h.0 e in
      ground (arith, later)

  get_head : (j : ℕ) (g : List (Event V)) (m : Available V) → get j ((j, g) ∷ m) ≡ some g
  unfolding get
  get_head j g m = ground arith

  -- What a search for the last key up to a time finds.
  abbrev LastUpTo : ℕ → Available V → Option ℕ → Type 0
  LastUpTo t m none = All (λ g. t < g.0) m
  LastUpTo t m (some k) = (k ≤ t) × Has k m × All (λ g. (t < g.0) ⊎ (g.0 ≤ k)) m

  abbrev FirstFrom : ℕ → Available V → Option ℕ → Type 0
  FirstFrom t m none = All (λ g. g.0 < t) m
  FirstFrom t m (some k) = (t ≤ k) × Has k m × All (λ g. (g.0 < t) ⊎ (k ≤ g.0)) m

  last_up_to_lem : (t : ℕ) (m : Available V) → Ascends m → LastUpTo t m (last_up_to t m)
  unfolding last_up_to
  last_up_to_lem t [] h = tt
  last_up_to_lem t ((j, g) ∷ m) h =
      let rest = last_up_to_lem t m h.1 in
      elim (Bool-cases (leb j t)) [
        | inr late ↦
            let after : t < j = ground (arith, late) in
            rw late (
              after,
              All-imp
                  (λ (x : ℕ × List (Event V)) (s : Sooner (j, g) x).
                    lt_trans after (lt_of_compare_lt j x.0 s))
                  m h.0,
            )
        | inl soon ↦ elim (Option-cases (last_up_to t m)) [
          | inl e ↦
              let found : last_up_to t ((j, g) ∷ m) ≡ some j = rw (soon, e) refl in
              subst (LastUpTo t ((j, g) ∷ m)) (sym found) (
                leb→le j t soon,
                (g, get_head j g m),
                (
                  inr (le_refl j),
                  All-imp (λ (x : ℕ × List (Event V)) (s : t < x.0). inl s) m
                      (subst (LastUpTo t m) e rest),
                ),
              )
          | inr (k, e) ↦
              let (at_most, (b, has), others) = subst (LastUpTo t m) e rest in
              let later = lt_of_compare_lt j k (All-get (Sooner (j, g)) k m h.0 has) in
              let found : last_up_to t ((j, g) ∷ m) ≡ some k = rw (soon, e) refl in
              subst (LastUpTo t ((j, g) ∷ m)) (sym found)
                (at_most, (b, get_tail j k g m h has), (inr (omega arith), others))
        ]
      ]

  first_from_lem : (t : ℕ) (m : Available V) → Ascends m → FirstFrom t m (first_from t m)
  unfolding first_from
  first_from_lem t [] h = tt
  first_from_lem t ((j, g) ∷ m) h =
      let rest = first_from_lem t m h.1 in
      elim (Bool-cases (leb t j)) [
        | inl reached ↦ rw reached (
          leb→le t j reached,
          (g, get_head j g m),
          (
            inr (le_refl j),
            All-imp
                (λ (x : ℕ × List (Event V)) (s : Sooner (j, g) x). inr (le_of_compare_lt j x.0 s)) m
                h.0,
          ),
        )
        | inr before ↦
            let sooner : j < t = ground (arith, before) in
            elim (Option-cases (first_from t m)) [
              | inl e ↦
                  let found : first_from t ((j, g) ∷ m) ≡ none = rw (before, e) refl in
                  subst (FirstFrom t ((j, g) ∷ m)) (sym found)
                    (sooner, subst (FirstFrom t m) e rest)
              | inr (k, e) ↦
                  let (at_least, (b, has), others) = subst (FirstFrom t m) e rest in
                  let found : first_from t ((j, g) ∷ m) ≡ some k = rw (before, e) refl in
                  subst (FirstFrom t ((j, g) ∷ m)) (sym found)
                    (at_least, (b, get_tail j k g m h has), (inl sooner, others))
            ]
      ]

  -- A timestamp of the map than which none is nearer, and none later is as near.
  pub record IsNearest (t k : ℕ) (m : Available V) : Type 0 where
    pub has : Has k m
    pub nearest : All (λ g. abs_diff k t ≤ abs_diff g.0 t) m
    pub later_wins : All (λ g. abs_diff g.0 t ≡ abs_diff k t → g.0 ≤ k) m

  abbrev pub Selected : ℕ → Available V → Option ℕ → Type 0
  Selected t m none = m ≡ []
  Selected t m (some k) = IsNearest t k m

  nothing_left : (t : ℕ) (m : Available V) → LastUpTo t m none → FirstFrom t m none → m ≡ []
  nothing_left t [] h k = refl
  nothing_left t (x ∷ m) h k = absurd (omega (arith, h.0, k.0))

  -- A key on either side is no nearer than the closest on that side.
  before-IsNearest :
      (t k : ℕ) (m : Available V) → LastUpTo t m (some k) → FirstFrom t m none → IsNearest t k m
  unfolding abs_diff
  before-IsNearest t k m (at_most, has, lower) all_before = record {
    has = has;
    nearest =
        All-both
          (λ (x : ℕ × List (Event V)) (l : (t < x.0) ⊎ (x.0 ≤ k)) (b : x.0 < t). ground arith) m
          lower all_before;
    later_wins =
        All-both
          (λ (x : ℕ × List (Event V)) (l : (t < x.0) ⊎ (x.0 ≤ k)) (b : x.0 < t). λ e. ground arith)
          m lower all_before;
  }

  after-IsNearest :
      (t k : ℕ) (m : Available V) → LastUpTo t m none → FirstFrom t m (some k) → IsNearest t k m
  unfolding abs_diff
  after-IsNearest t k m all_after (at_least, has, upper) = record {
    has = has;
    nearest =
        All-both
          (λ (x : ℕ × List (Event V)) (a : t < x.0) (u : (x.0 < t) ⊎ (k ≤ x.0)). ground arith) m
          all_after upper;
    later_wins =
        All-both
          (λ (x : ℕ × List (Event V)) (a : t < x.0) (u : (x.0 < t) ⊎ (k ≤ x.0)). λ e. ground arith)
          m all_after upper;
  }

  -- The closer of the two, and the later one at equal distance.
  closer-IsNearest :
      (t before after : ℕ) (m : Available V)
      → LastUpTo t m (some before)
      → FirstFrom t m (some after)
      → IsNearest t (if ltb (t - before) (after - t) then before else after) m
  unfolding abs_diff
  closer-IsNearest t before after m (at_most, has, lower) (at_least, has', upper) =
      elim (Bool-cases (ltb (t - before) (after - t))) [
        | inl sooner ↦ rw sooner (record {
          has = has;
          nearest =
              All-both
                (λ (x : ℕ × List (Event V)) (l : (t < x.0) ⊎ (x.0 ≤ before))
                    (u : (x.0 < t) ⊎ (after ≤ x.0)).
                  ground arith)
                m lower upper;
          later_wins =
              All-both
                (λ (x : ℕ × List (Event V)) (l : (t < x.0) ⊎ (x.0 ≤ before))
                    (u : (x.0 < t) ⊎ (after ≤ x.0)).
                  λ e. ground arith)
                m lower upper;
        })
        | inr later ↦ rw later (record {
          has = has';
          nearest =
              All-both
                (λ (x : ℕ × List (Event V)) (l : (t < x.0) ⊎ (x.0 ≤ before))
                    (u : (x.0 < t) ⊎ (after ≤ x.0)).
                  ground arith)
                m lower upper;
          later_wins =
              All-both
                (λ (x : ℕ × List (Event V)) (l : (t < x.0) ⊎ (x.0 ≤ before))
                    (u : (x.0 < t) ⊎ (after ≤ x.0)).
                  λ e. ground arith)
                m lower upper;
        })
      ]

  -- On ends indexed in order of time, `select_nearest` selects an indexed timestamp that no other
  -- one is nearer than, the later one of two at equal distance; it selects nothing only when no
  -- end is left.
  pub select_nearest-Selected :
      (t : ℕ) (m : Available V) → Ascends m → Selected t m (select_nearest t m)
  unfolding select_nearest
  select_nearest-Selected t m h =
      let last = last_up_to_lem t m h in
      let first = first_from_lem t m h in
      elim (Option-cases (last_up_to t m)) [
        | inl e ↦ elim (Option-cases (first_from t m)) [
          | inl f ↦
              let none_found : select_nearest t m ≡ none = rw (e, f) refl in
              subst (Selected t m) (sym none_found)
                (nothing_left t m (subst (LastUpTo t m) e last) (subst (FirstFrom t m) f first))
          | inr (k, f) ↦
              let found : select_nearest t m ≡ some k = rw (e, f) refl in
              subst (Selected t m) (sym found) (
                after-IsNearest t k m (subst (LastUpTo t m) e last) (subst (FirstFrom t m) f first))
        ]
        | inr (b, e) ↦ elim (Option-cases (first_from t m)) [
          | inl f ↦
              let found : select_nearest t m ≡ some b = rw (e, f) refl in
              subst (Selected t m) (sym found) (
                before-IsNearest t b m (subst (LastUpTo t m) e last)
                  (subst (FirstFrom t m) f first))
          | inr (a, f) ↦
              let k = if ltb (t - b) (a - t) then b else a in
              let found : select_nearest t m ≡ some k = rw (e, f) refl in
              subst (Selected t m) (sym found) (
                closer-IsNearest t b a m (subst (LastUpTo t m) e last)
                  (subst (FirstFrom t m) f first))
        ]
      ]
