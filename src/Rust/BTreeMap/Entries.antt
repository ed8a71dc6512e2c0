-- ===== src/Rust/BTreeMap/Entries.antt =====
-- The entries of a `BTreeMap` of numbers: what `get` gives at them, and their sum.
use xprobe.Prelude.{
  ℕ, ◌+◌, ◌<◌, ◌≡◌, refl, subst, inl, inr, Bool, true, false, some, List, [], ◌∷◌, arith, unwrap_or,
  count, All, All-both, Ordering, Ordering-cases,
}
use xprobe.Rust.Ord.{Ord}
use xprobe.Rust.Sort.{insert_by, sort_by}
use xprobe.Rust.BTreeMap.{BTreeMap, get, insert, Ascends, Sooner}

-- `==` by the order.
abbrev pub is_eq : Ordering → Bool
is_eq Ordering.eq = true
is_eq _ = false

module _ {ℓ κ} {K : Type ℓ} {V : Type κ} ⦃o : Ord K⦄ where
  get_later :
      (j : K) (w : V) (m : BTreeMap K V) (e : K × V)
      → Sooner (j, w) e
      → get e.0 m ≡ some e.1
      → get e.0 ((j, w) ∷ m) ≡ some e.1
  unfolding get
  get_later j w m (k, v) s h = elim (Ordering-cases (o.cmp k j)) [
    | inl lt ↦ cc (o.cmp_self j, o.lt_trans j k j s lt)
    | inr (inl eq) ↦ cc (o.cmp_self j, subst (λ i. o.cmp j i ≡ Ordering.lt) (o.eq_of_cmp k j eq) s)
    | inr (inr gt) ↦ rw (gt, get) h
  ]

  -- In ascending order `get` finds each entry.
  pub get-entries : (m : BTreeMap K V) → Ascends m → All (λ (e : K × V). get e.0 m ≡ some e.1) m
  unfolding get
  get-entries [] h = tt
  get-entries ((j, w) ∷ m) h =
      (rw (o.cmp_self j, get) refl, All-both (get_later j w m) m h.0 (get-entries m h.1))

  -- An entry stands in the map.
  pub count-get :
      (k : K) (m : BTreeMap K V) {v : V}
      → get k m ≡ some v
      → 0 < count (λ (e : K × V). is_eq (o.cmp k e.0)) m
  unfolding get
  count-get k [] h = cc
  count-get k ((j, w) ∷ m) {v} h = ground (arith, count-get k m {v = v})

-- The sum of the numbers.
unfoldable pub weight {ℓ} : {K : Type ℓ} → List (K × ℕ) → ℕ
weight [] = 0
weight ((k, n) ∷ m) = n + weight m

module _ {ℓ} {K : Type ℓ} (le : K × ℕ → K × ℕ → Bool) where
  weight-insert_by : (x : K × ℕ) (l : List (K × ℕ)) → weight (insert_by le x l) ≡ x.1 + weight l
  unfolding weight insert_by
  weight-insert_by x [] = refl
  weight-insert_by x (y ∷ l) = ground (arith, weight-insert_by x l)

  pub weight-sort_by : (l : List (K × ℕ)) → weight (sort_by le l) ≡ weight l
  unfolding weight sort_by
  weight-sort_by [] = refl
  weight-sort_by (x ∷ l) = omega (arith, weight-insert_by x (sort_by le l), weight-sort_by l)

module _ {ℓ} {K : Type ℓ} ⦃o : Ord K⦄ where
  pub weight-insert :
      (k : K) (v : ℕ) (m : BTreeMap K ℕ)
      → weight (insert k v m) + unwrap_or (get k m) 0 ≡ weight m + v
  unfolding weight insert get
  weight-insert k v [] = omega arith
  weight-insert k v ((j, w) ∷ m) = ground (arith, weight-insert k v m)
