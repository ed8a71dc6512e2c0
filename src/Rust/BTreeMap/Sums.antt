-- ===== src/Rust/BTreeMap/Sums.antt =====
-- Sums over the keys of a `BTreeMap`, and `get` after a removal.
use xprobe.Prelude.{
  ℕ, ◌+◌, ◌≡◌, ◌≢◌, refl, sym, ap, ◌∙◌, subst, inl, inr, Bool, false, Option, none, List, [], ◌∷◌,
  arith, if◌then◌else◌, is_some, is_some_and, ◌&&◌, count, All, All-imp, Ordering, Ordering-cases,
  Option-cases,
}
use xprobe.Rust.Ord.{Ord}
use xprobe.Rust.BTreeMap.{BTreeMap, get, remove, Ascends, Sooner}
use xprobe.Rust.BTreeMap.Entries.{is_eq}

module _ {ℓ} {K : Type ℓ} ⦃o : Ord K⦄ where
  -- The number of one key only.
  abbrev pub only : K → (K → ℕ) → K → ℕ
  only j f k = if is_eq (o.cmp j k) then f k else 0

module _ {ℓ κ} {K : Type ℓ} {A : Type κ} ⦃o : Ord K⦄ (key_of : A → Option K) where
  abbrev pub has_key : K → A → Bool
  has_key k a = is_some_and (key_of a) (λ j. is_eq (o.cmp j k))

module _ {ℓ κ} {K : Type ℓ} {V : Type κ} ⦃o : Ord K⦄ where
  -- Before the first key there is nothing.
  get_before :
      (j i : K) (w : V) (m : BTreeMap K V)
      → o.cmp j i ≡ Ordering.lt
      → All (Sooner (i, w)) m
      → get j m ≡ none
  unfolding get
  get_before j i w [] lt h = refl
  get_before j i w ((k, v) ∷ m) lt h = rw (o.lt_trans j i k lt h.0, get) refl

  get_at_first :
      (j i : K) (w : V) (m : BTreeMap K V)
      → o.cmp j i ≡ Ordering.lt
      → All (Sooner (i, w)) m
      → get j ((i, w) ∷ m) ≡ get j m
  unfolding get
  get_at_first j i w m lt h = rw (lt, get) (sym (get_before j i w m lt h))

  pub get-remove_other :
      (j k : K) (m : BTreeMap K V) → Ascends m → j ≢ k → get j (remove k m) ≡ get j m
  unfolding get remove
  get-remove_other j k [] a h = refl
  get-remove_other j k ((i, w) ∷ m) a h = elim (Ordering-cases (o.cmp k i)) [
    | inl lt ↦ rw (lt, remove) refl
    | inr (inl eq) ↦
        rw (eq, remove)
          (elim (Ordering-cases (o.cmp j i)) [
            | inl lt' ↦ rw (lt', get) (get_before j i w m lt' a.0)
            | inr (inl e) ↦ absurd (h (o.eq_of_cmp j i e ∙ sym (o.eq_of_cmp k i eq)))
            | inr (inr gt) ↦ rw (gt, get) refl
          ])
    | inr (inr gt) ↦
        rw (gt, remove)
          (elim (Ordering-cases (o.cmp j i)) [
            | inl lt' ↦ rw (lt', get) refl
            | inr (inl e) ↦ rw (e, get) refl
            | inr (inr gt') ↦ rw (gt', get) (get-remove_other j k m a.1 h)
          ])
  ]

  -- The sum of a number of each key.
  unfoldable pub over : (K → ℕ) → BTreeMap K V → ℕ
  over f [] = 0
  over f ((k, v) ∷ m) = f k + over f m

  pub over-ext : (f g : K → ℕ) (m : BTreeMap K V) → ((k : K) → f k ≡ g k) → over f m ≡ over g m
  unfolding over
  over-ext f g [] h = refl
  over-ext f g ((k, v) ∷ m) h = omega (arith, h k, over-ext f g m h)

  pub over-add : (f g : K → ℕ) (m : BTreeMap K V) → over (λ k. f k + g k) m ≡ over f m + over g m
  unfolding over
  over-add f g [] = refl
  over-add f g ((k, v) ∷ m) = omega (arith, over-add f g m)

  pub over-zero : (m : BTreeMap K V) → over (λ k. 0) m ≡ 0
  unfolding over
  over-zero [] = refl
  over-zero ((k, v) ∷ m) = omega (arith, over-zero m)

  over_absent :
      (j : K) (f : K → ℕ) (m : BTreeMap K V)
      → All (λ (e : K × V). o.cmp j e.0 ≡ Ordering.lt) m
      → over (only j f) m ≡ 0
  unfolding over
  over_absent j f [] h = refl
  over_absent j f ((k, v) ∷ m) h = rw h.0 (omega (arith, over_absent j f m h.1))

  pub over-only :
      (j : K) (f : K → ℕ) (m : BTreeMap K V)
      → Ascends m
      → over (only j f) m ≡ (if is_some (get j m) then f j else 0)
  unfolding over get
  over-only j f [] a = refl
  over-only j f ((i, w) ∷ m) a = elim (Ordering-cases (o.cmp j i)) [
    | inl lt ↦
        rw (lt, get)
          (omega (
            arith,
            over_absent j f m
                (All-imp (λ (e : K × V) (s : Sooner (i, w) e). o.lt_trans j i e.0 lt s) m a.0),
          ))
    | inr (inl eq) ↦
        let same = o.eq_of_cmp j i eq in
        rw (eq, get)
          (omega (
            arith,
            ap f same,
            over_absent j f m (
                subst (λ (x : K). All (λ (e : K × V). o.cmp x e.0 ≡ Ordering.lt) m) (sym same) a.0),
          ))
    | inr (inr gt) ↦ rw (gt, get) (omega (arith, over-only j f m a.1))
  ]

-- Of events with keys: a sum over the keys of how many events have each of them.
module _ {ℓ κ μ} {K : Type ℓ} {V : Type κ} {A : Type μ} ⦃o : Ord K⦄ (key_of : A → Option K) where
  over_one :
      (p : K → Bool) (a : A) (m : BTreeMap K V)
      → Ascends m
      → over (λ k. if p k && has_key key_of k a then 1 else 0) m
        ≡ (if is_some_and (key_of a) (λ k. p k && is_some (get k m)) then 1 else 0)
  over_one p a m h = elim (Option-cases (key_of a)) [
    | inl e ↦
        rw e (
          over-ext (λ k. if p k && false then 1 else 0) (λ k. 0) m (λ k. ground arith)
          ∙ over-zero m)
    | inr (j, e) ↦ rw e (
        over-ext (λ k. if p k && is_eq (o.cmp j k) then 1 else 0)
          (only j (λ k. if p k then 1 else 0)) m (λ k. ground arith)
        ∙ over-only j (λ k. if p k then 1 else 0) m h
        ∙ ground arith)
  ]

  pub over-count :
      (p : K → Bool) (events : List A) (m : BTreeMap K V)
      → Ascends m
      → over (λ k. if p k then count (has_key key_of k) events else 0) m
        ≡ count (λ a. is_some_and (key_of a) (λ k. p k && is_some (get k m))) events
  over-count p [] m h =
      over-ext (λ k. if p k then 0 else 0) (λ k. 0) m (λ k. ground arith) ∙ over-zero m
  over-count p (a ∷ events) m h =
      over-ext _
        (λ k.
          (if p k && has_key key_of k a then 1 else 0)
          + (if p k then count (has_key key_of k) events else 0))
        m (λ k. ground arith)
      ∙ over-add (λ k. if p k && has_key key_of k a then 1 else 0)
          (λ k. if p k then count (has_key key_of k) events else 0) m
      ∙ ground (arith, over_one p a m h, over-count p events m h)
