-- ===== src/Rust/BTreeMap/Groups.antt =====
-- `BTreeMap<K, Vec<A>>`: `entry(k).or_default().push(a)`, and `Vec::pop` on the vector of a key.
use xprobe.Prelude.{
  Ordering, Ordering-cases, ◌≢◌, ap, sym, ◌∙◌, some-injective, List-cases, ℕ, ◌+◌, ◌<◌, ◌≡◌, refl,
  subst, inl, inr, Option, none, some, List, [], ◌∷◌, ◌++◌, arith, Option-cases, unwrap_or, length,
  length-append, All, All-append,
}
use xprobe.Rust.BTreeMap.Lookup.{get-insert, get-insert_other}
use xprobe.Rust.Ord.{Ord}
use xprobe.Rust.BTreeMap.{BTreeMap, get, insert, remove, All-insert, All-get}

-- `Vec::pop`: the last element, and the vector without it.
module _ {ℓ} {A : Type ℓ} where
  abbrev pub popped : A → Option (A × List A) → Option (A × List A)
  popped x none = some (x, [])
  popped x (some (y, ys)) = some (y, x ∷ ys)

  unfoldable pub pop : List A → Option (A × List A)
  pop [] = none
  pop (x ∷ xs) = popped x (pop xs)

  pop-ne-none : (x : A) (xs : List A) → pop (x ∷ xs) ≡ none → ⊥
  unfolding pop
  pop-ne-none x xs e = elim (Option-cases (pop xs)) [
    | inl n ↦ cc (subst (λ o. popped x o ≡ none) n e)
    | inr (a, n) ↦ cc (subst (λ o. popped x o ≡ none) n e)
  ]

  pub length-pop :
      (xs : List A) {x : A} {ys : List A} → pop xs ≡ some (x, ys) → length xs ≡ length ys + 1
  unfolding pop
  length-pop [] e = cc
  length-pop (z ∷ []) {x} {ys} e = ground arith
  length-pop (z ∷ w ∷ zs) {x} {ys} e = elim (Option-cases (pop (w ∷ zs))) [
    | inl n ↦ absurd (pop-ne-none w zs n)
    | inr ((y, ws), n) ↦
        let front : ◌≡◌ {A = Option (A × List A)} (some (y, z ∷ ws)) (some (x, ys)) =
          subst (λ o. popped z o ≡ some (x, ys)) n e in
        ground (arith, length-pop (w ∷ zs) {x = y} {ys = ws} n)
  ]

  pub append-pop : (xs : List A) {x : A} {ys : List A} → pop xs ≡ some (x, ys) → ys ++ x ∷ [] ≡ xs
  unfolding pop
  append-pop [] e = cc
  append-pop (z ∷ zs) {x} {ys} e = elim (Option-cases (pop zs)) [
    | inl n ↦ elim (List-cases zs) [
      | inl nil ↦
          let last : ◌≡◌ {A = Option (A × List A)} (some (z, [])) (some (x, ys)) =
            subst (λ o. popped z o ≡ some (x, ys)) n e in
          cc
      | inr (w, ws, c) ↦ absurd (pop-ne-none w ws (subst (λ l. pop l ≡ none) c n))
    ]
    | inr ((y, ws), n) ↦
        let front : ◌≡◌ {A = Option (A × List A)} (some (y, z ∷ ws)) (some (x, ys)) =
          subst (λ o. popped z o ≡ some (x, ys)) n e in
        let rest = append-pop zs {x = y} {ys = ws} n in
        ap (λ (p : A × List A). p.1 ++ p.0 ∷ []) (sym (some-injective front)) ∙ ap (◌∷◌ z) rest
  ]

  -- A vector with an element has a last one.
  pub pop-some : (xs : List A) → 0 < length xs → (x : A) × (ys : List A) × (pop xs ≡ some (x, ys))
  unfolding pop
  pop-some [] h = absurd (omega arith)
  pop-some (x ∷ xs) h = elim (Option-cases (pop xs)) [
    | inl e ↦ (x, [], rw e refl)
    | inr ((y, ys), e) ↦ (y, x ∷ ys, rw e refl)
  ]

module _ {ℓ κ} {A : Type ℓ} (P : A → Type κ) where
  pub All-pop :
      (xs : List A) {x : A} {ys : List A} → All P xs → pop xs ≡ some (x, ys) → P x × All P ys
  unfolding pop
  All-pop [] h e = cc
  All-pop (z ∷ zs) {x} {ys} h e = elim (Option-cases (pop zs)) [
    | inl n ↦
        let last : ◌≡◌ {A = Option (A × List A)} (some (z, [])) (some (x, ys)) =
          subst (λ o. popped z o ≡ some (x, ys)) n e in
        (subst P {x = z} (cc) h.0, subst (All P) {x = []} (cc) tt)
    | inr ((y, ws), n) ↦
        let front : ◌≡◌ {A = Option (A × List A)} (some (y, z ∷ ws)) (some (x, ys)) =
          subst (λ o. popped z o ≡ some (x, ys)) n e in
        let (here, rest) = All-pop zs {x = y} {ys = ws} h.1 n in
        (subst P {x = y} (cc) here, subst (All P) {x = z ∷ ws} (cc) (h.0, rest))
  ]

module _ {ℓ κ} {K : Type ℓ} {A : Type κ} where
  -- `values().map(Vec::len).sum()`.
  unfoldable pub total : BTreeMap K (List A) → ℕ
  total [] = 0
  total ((k, g) ∷ m) = length g + total m

module _ {ℓ κ} {K : Type ℓ} {A : Type κ} ⦃o : Ord K⦄ where
  unfoldable pub push : K → A → BTreeMap K (List A) → BTreeMap K (List A)
  unfolding get insert
  push k a m = insert k (unwrap_or (get k m) [] ++ a ∷ []) m

  pub total-insert :
      (k : K) (g : List A) (m : BTreeMap K (List A))
      → total (insert k g m) + length (unwrap_or (get k m) []) ≡ total m + length g
  unfolding total insert get
  total-insert k g [] = omega arith
  total-insert k g ((j, w) ∷ m) = ground (arith, total-insert k g m)

  pub total-push : (k : K) (a : A) (m : BTreeMap K (List A)) → total (push k a m) ≡ total m + 1
  unfolding push
  total-push k a m =
      let old = unwrap_or (get k m) [] in
      omega (arith, total-insert k (old ++ a ∷ []) m, length-append old (a ∷ []))

  pub total-remove :
      (k : K) (m : BTreeMap K (List A)) {g : List A}
      → get k m ≡ some g
      → total m ≡ length g + total (remove k m)
  unfolding total remove get
  total-remove k [] e = cc
  total-remove k ((j, w) ∷ m) {g} e = ground (arith, total-remove k m {g = g})

module _ {ℓ κ μ} {K : Type ℓ} {A : Type κ} (P : K → A → Type μ) where
  -- What holds of every element beside its key.
  abbrev pub AllIn : K × List A → Type μ
  AllIn (k, g) = All (P k) g

module _ {ℓ κ μ} {K : Type ℓ} {A : Type κ} ⦃o : Ord K⦄ (P : K → A → Type μ) where
  pub AllIn-get :
      (k : K) (m : BTreeMap K (List A)) → All (AllIn P) m → All (P k) (unwrap_or (get k m) [])
  AllIn-get k m h = elim (Option-cases (get k m)) [
    | inl e ↦ rw e tt
    | inr (g, e) ↦ rw e (All-get (AllIn P) k m h e)
  ]

  pub All-push :
      (k : K) (a : A) (m : BTreeMap K (List A))
      → P k a
      → All (AllIn P) m
      → All (AllIn P) (push k a m)
  unfolding push
  All-push k a m p h =
      let old = unwrap_or (get k m) [] in
      All-insert (AllIn P) k (old ++ a ∷ []) m
        (All-append (P k) old (a ∷ []) (AllIn-get k m h) (p, tt)) h

module _ {ℓ} {K : Type ℓ} ⦃o : Ord K⦄ where
  ne_of_cmp : (j k : K) → (o.cmp j k ≢ Ordering.eq) → j ≢ k
  ne_of_cmp j k h e = h (ap (λ i. o.cmp i k) e ∙ o.cmp_self k)

module _ {ℓ κ} {K : Type ℓ} {A : Type κ} ⦃o : Ord K⦄ where
  -- The vector of a key; a key without one has none of its elements.
  unfoldable pub group_at : K → BTreeMap K (List A) → List A
  unfolding get
  group_at k m = unwrap_or (get k m) []

module _ {ℓ κ μ} {K : Type ℓ} {A : Type κ} ⦃o : Ord K⦄ where
  -- What holds of each vector holds after one of them is replaced.
  pub group_at-insert :
      (P : K → List A → Type μ) (k : K) (g : List A) (m : BTreeMap K (List A))
      → P k g
      → ((j : K) → P j (group_at j m))
      → (j : K) → P j (group_at j (insert k g m))
  unfolding group_at
  group_at-insert P k g m p h j = elim (Ordering-cases (o.cmp j k)) [
    | inr (inl eq) ↦
        subst (λ i. P i (unwrap_or (get i (insert k g m)) [])) (sym (o.eq_of_cmp j k eq))
          (rw (get-insert k g m) p)
    | inl lt ↦ rw (get-insert_other j k g m (ne_of_cmp j k (λ e. cc))) (h j)
    | inr (inr gt) ↦ rw (get-insert_other j k g m (ne_of_cmp j k (λ e. cc))) (h j)
  ]
