-- ===== src/Rust/BTreeMap.antt =====
-- `BTreeMap`: an association list in ascending order of its keys. `insert` hands back the value
-- that `get` finds before it, and so does `remove`.
pub mod Groups
pub mod Lookup
pub mod Entries
pub mod Sums
use xprobe.Prelude.{
  Ordering, Ordering-cases, ℕ, zero, suc, ◌+◌, ◌-◌, ◌*◌, ◌/◌, ◌%◌, ◌^◌, ◌≤◌, ◌<◌, min, max, ◌≡◌,
  refl, sym, ap, ◌∙◌, subst, ◌≢◌, ◌↔◌, ◌⊎◌, inl, inr, Bool, true, false, not, ◌&&◌, ◌||◌, Option,
  none, some, List, [], ◌∷◌, ◌++◌, map, arith, ltb, leb, ◌==◌, if◌then◌else◌, ltb→lt, leb→le,
  Bool-cases, Option-cases, is_some, is_some_and, is_none_or, unwrap_or, decided, of_decided,
  and_then, length, get_elem?, take, drop, select, any, all, is_empty, count, length-append,
  count-append, length-take, List-cases, length-map, All, All-append, All-take, All-select, All-imp,
  All-of_forall, Ordered, All-get_elem?, All-select_test, get_elem?-some, length-select-le,
}
use xprobe.Rust.Ord.{Ord}

abbrev pub BTreeMap {ℓ κ} : Type ℓ → Type κ → Type (ℓ ⊔ κ)
BTreeMap K V = List (K × V)

module _ {ℓ κ} {K : Type ℓ} {V : Type κ} ⦃o : Ord K⦄ where
  unfoldable pub get : K → BTreeMap K V → Option V
  get k [] = none
  get k ((j, v) ∷ m) = elim (o.cmp k j) [
    | Ordering.lt ↦ none
    | Ordering.eq ↦ some v
    | Ordering.gt ↦ get k m
  ]

  unfoldable pub insert : K → V → BTreeMap K V → BTreeMap K V
  insert k v [] = (k, v) ∷ []
  insert k v ((j, w) ∷ m) = elim (o.cmp k j) [
    | Ordering.lt ↦ (k, v) ∷ (j, w) ∷ m
    | Ordering.eq ↦ (k, v) ∷ m
    | Ordering.gt ↦ (j, w) ∷ insert k v m
  ]

  unfoldable pub remove : K → BTreeMap K V → BTreeMap K V
  remove k [] = []
  remove k ((j, w) ∷ m) = elim (o.cmp k j) [
    | Ordering.lt ↦ (j, w) ∷ m
    | Ordering.eq ↦ m
    | Ordering.gt ↦ (j, w) ∷ remove k m
  ]

  -- The size grows by one exactly when the key is new.
  pub length-insert :
      (k : K) (v : V) (m : BTreeMap K V)
      → length (insert k v m) ≡ (if is_some (get k m) then length m else length m + 1)
  unfolding insert get
  length-insert k v [] = ground arith
  length-insert k v ((j, w) ∷ m) = ground (arith, length-insert k v m)

  pub length-remove :
      (k : K) (m : BTreeMap K V) {v : V} → get k m ≡ some v → length m ≡ length (remove k m) + 1
  unfolding remove get
  length-remove k [] h = cc
  length-remove k ((j, w) ∷ m) {v} h = ground (arith, length-remove k m {v = v})

-- What holds of every entry.
module _ {ℓ κ μ} {K : Type ℓ} {V : Type κ} ⦃o : Ord K⦄ (P : K × V → Type μ) where
  pub All-insert : (k : K) (v : V) (m : BTreeMap K V) → P (k, v) → All P m → All P (insert k v m)
  unfolding insert
  All-insert k v [] p h = (p, tt)
  All-insert k v ((j, w) ∷ m) p h =
      elim (o.cmp k j)
        as (λ c. All P (elim c [
          | Ordering.lt ↦ (k, v) ∷ (j, w) ∷ m
          | Ordering.eq ↦ (k, v) ∷ m
          | Ordering.gt ↦ (j, w) ∷ insert k v m
        ])) [
          | Ordering.lt ↦ (p, h)
          | Ordering.eq ↦ (p, h.1)
          | Ordering.gt ↦ (h.0, All-insert k v m p h.1)
        ]

  pub All-remove : (k : K) (m : BTreeMap K V) → All P m → All P (remove k m)
  unfolding remove
  All-remove k [] h = tt
  All-remove k ((j, w) ∷ m) h =
      elim (o.cmp k j)
        as (λ c. All P (elim c [
          | Ordering.lt ↦ (j, w) ∷ m
          | Ordering.eq ↦ m
          | Ordering.gt ↦ (j, w) ∷ remove k m
        ])) [ Ordering.lt ↦ h | Ordering.eq ↦ h.1 | Ordering.gt ↦ (h.0, All-remove k m h.1) ]

  pub All-get : (k : K) (m : BTreeMap K V) {v : V} → All P m → get k m ≡ some v → P (k, v)
  unfolding get
  All-get k [] h e = cc
  All-get k ((j, w) ∷ m) {v} h e = ground (arith, h.0, o.eq_of_cmp k j, All-get k m {v = v} h.1)

-- The order of the keys, which every operation keeps.
module _ {ℓ κ} {K : Type ℓ} {V : Type κ} ⦃o : Ord K⦄ where
  abbrev pub Sooner : K × V → K × V → Type 0
  Sooner x y = o.cmp x.0 y.0 ≡ Ordering.lt

  abbrev pub Ascends : BTreeMap K V → Type 0
  Ascends = Ordered Sooner

  Sooner-insert :
      (j k : K) (w v : V) (m : BTreeMap K V)
      → o.cmp j k ≡ Ordering.lt
      → All (Sooner (j, w)) m
      → All (Sooner (j, w)) (insert k v m)
  Sooner-insert j k w v m h = All-insert (Sooner (j, w)) k v m h

  pub insert-Ascends : (k : K) (v : V) (m : BTreeMap K V) → Ascends m → Ascends (insert k v m)
  unfolding insert
  insert-Ascends k v [] h = (tt, tt)
  insert-Ascends k v ((j, w) ∷ m) h = elim (Ordering-cases (o.cmp k j)) [
    | inl lt ↦
        rw (lt, insert)
          ((lt, All-imp (λ (x : K × V) (s : Sooner (j, w) x). o.lt_trans k j x.0 lt s) m h.0), h)
    | inr (inl eq) ↦
        rw (eq, insert)
          (
            subst (λ (i : K). All (λ (x : K × V). o.cmp i x.0 ≡ Ordering.lt) m)
                (sym (o.eq_of_cmp k j eq)) h.0,
            h.1,
          )
    | inr (inr gt) ↦
        rw (gt, insert) (Sooner-insert j k w v m (o.lt_of_gt k j gt) h.0, insert-Ascends k v m h.1)
  ]

  pub remove-Ascends : (k : K) (m : BTreeMap K V) → Ascends m → Ascends (remove k m)
  unfolding remove
  remove-Ascends k [] h = tt
  remove-Ascends k ((j, w) ∷ m) h = elim (Ordering-cases (o.cmp k j)) [
    | inl lt ↦ rw (lt, remove) h
    | inr (inl eq) ↦ rw (eq, remove) h.1
    | inr (inr gt) ↦ rw (gt, remove) (All-remove (Sooner (j, w)) k m h.0, remove-Ascends k m h.1)
  ]
