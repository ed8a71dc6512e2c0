-- ===== src/Rust/BTreeMap/Lookup.antt =====
-- What a `BTreeMap` gives back after an insertion.
use xprobe.Prelude.{◌≡◌, ◌≢◌, refl, ap, ◌∙◌, sym, inl, inr, some, [], ◌∷◌, Ordering-cases}
use xprobe.Rust.Ord.{Ord}
use xprobe.Rust.BTreeMap.{BTreeMap, get, insert}

module _ {ℓ κ} {K : Type ℓ} {V : Type κ} ⦃o : Ord K⦄ where
  pub get-insert : (k : K) (v : V) (m : BTreeMap K V) → get k (insert k v m) ≡ some v
  unfolding get insert
  get-insert k v [] = rw (o.cmp_self k) refl
  get-insert k v ((j, w) ∷ m) = elim (Ordering-cases (o.cmp k j)) [
    | inl lt ↦ rw (lt, insert) (rw (o.cmp_self k, get) refl)
    | inr (inl eq) ↦ rw (eq, insert) (rw (o.cmp_self k, get) refl)
    | inr (inr gt) ↦ rw (gt, insert) (rw (gt, get) (get-insert k v m))
  ]

  pub get-insert_other :
      (j k : K) (v : V) (m : BTreeMap K V) → j ≢ k → get j (insert k v m) ≡ get j m
  unfolding get insert
  get-insert_other j k v [] h = elim (Ordering-cases (o.cmp j k)) [
    | inl lt ↦ rw lt refl
    | inr (inl eq) ↦ absurd (h (o.eq_of_cmp j k eq))
    | inr (inr gt) ↦ rw gt refl
  ]
  get-insert_other j k v ((i, w) ∷ m) h = elim (Ordering-cases (o.cmp k i)) [
    | inl lt ↦ elim (Ordering-cases (o.cmp j k)) [
      | inl lt' ↦ rw (lt, insert) (rw (lt', get) (rw (o.lt_trans j k i lt' lt, get) refl))
      | inr (inl eq) ↦ absurd (h (o.eq_of_cmp j k eq))
      | inr (inr gt) ↦ rw (lt, insert) (rw (gt, get) refl)
    ]
    | inr (inl eq) ↦
        let same : o.cmp j i ≡ o.cmp j k = ap (λ x. o.cmp j x) (sym (o.eq_of_cmp k i eq)) in
        elim (Ordering-cases (o.cmp j k)) [
          | inl lt' ↦ rw (eq, insert) (rw (lt', get) (rw (same ∙ lt', get) refl))
          | inr (inl e) ↦ absurd (h (o.eq_of_cmp j k e))
          | inr (inr gt) ↦ rw (eq, insert) (rw (gt, get) (rw (same ∙ gt, get) refl))
        ]
    | inr (inr gt) ↦ elim (Ordering-cases (o.cmp j i)) [
      | inl lt' ↦ rw (gt, insert) (rw (lt', get) refl)
      | inr (inl e) ↦ rw (gt, insert) (rw (e, get) refl)
      | inr (inr gt') ↦ rw (gt, insert) (rw (gt', get) (get-insert_other j k v m h))
    ]
  ]
