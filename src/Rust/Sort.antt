-- ===== src/Rust/Sort.antt =====
-- The stable sort `[T]::sort_by_key`, over the order of the keys.
use mathlib.Core.List.{Perm}
use mathlib.Core.List.Perm
use xprobe.Prelude.{
  suc, ◌≡◌, refl, inl, inr, Bool, true, false, List, [], ◌∷◌, length, All, Ordered, count, All-imp,
  Bool-cases, arith, if◌then◌else◌, subst,
}

module _ {ℓ} {A : Type ℓ} where
  -- An element that came earlier goes before its equals.
  unfoldable pub insert_by : (A → A → Bool) → A → List A → List A
  insert_by le x [] = x ∷ []
  insert_by le x (y ∷ ys) = if le x y then x ∷ y ∷ ys else y ∷ insert_by le x ys

  unfoldable pub sort_by : (A → A → Bool) → List A → List A
  unfolding insert_by
  sort_by le [] = []
  sort_by le (x ∷ xs) = insert_by le x (sort_by le xs)

  insert_by-perm : (le : A → A → Bool) (x : A) (l : List A) → Perm (insert_by le x l) (x ∷ l)
  unfolding insert_by
  insert_by-perm le x [] = Perm.rfl
  insert_by-perm le x (y ∷ ys) = elim (Bool-cases (le x y)) [
    | inl e ↦ rw e Perm.rfl
    | inr e ↦ rw e (Perm.trans (Perm.cons y (insert_by-perm le x ys)) (Perm.swap x y ys))
  ]

  -- A sort only rearranges.
  pub sort_by-perm : (le : A → A → Bool) (l : List A) → Perm (sort_by le l) l
  unfolding sort_by
  sort_by-perm le [] = Perm.rfl
  sort_by-perm le (x ∷ xs) =
      Perm.trans (insert_by-perm le x (sort_by le xs)) (Perm.cons x (sort_by-perm le xs))

  length-insert_by :
      (le : A → A → Bool) (x : A) (l : List A) → length (insert_by le x l) ≡ suc (length l)
  unfolding insert_by
  length-insert_by le x [] = refl
  length-insert_by le x (y ∷ ys) = ground (arith, length-insert_by le x ys)

  pub length-sort_by : (le : A → A → Bool) (l : List A) → length (sort_by le l) ≡ length l
  unfolding sort_by
  length-sort_by le [] = refl
  length-sort_by le (x ∷ xs) =
      omega (arith, length-insert_by le x (sort_by le xs), length-sort_by le xs)

-- A test passes as often after a sort as before.
module _ {ℓ} {A : Type ℓ} (le : A → A → Bool) (p : A → Bool) where
  count-insert_by : (x : A) (l : List A) → count p (insert_by le x l) ≡ count p (x ∷ l)
  unfolding insert_by
  count-insert_by x [] = refl
  count-insert_by x (y ∷ ys) = ground (arith, count-insert_by x ys)

  pub count-sort_by : (l : List A) → count p (sort_by le l) ≡ count p l
  unfolding sort_by
  count-sort_by [] = refl
  count-sort_by (x ∷ xs) = ground (arith, count-insert_by x (sort_by le xs), count-sort_by xs)

module _ {ℓ κ} {A : Type ℓ} (P : A → Type κ) (le : A → A → Bool) where
  pub All-insert_by : (x : A) (l : List A) → P x → All P l → All P (insert_by le x l)
  unfolding insert_by
  All-insert_by x [] px h = (px, tt)
  All-insert_by x (y ∷ ys) px h = elim (Bool-cases (le x y)) [
    | inl e ↦ rw e (px, h)
    | inr e ↦ rw e (h.0, All-insert_by x ys px h.1)
  ]

  pub All-sort_by : (l : List A) → All P l → All P (sort_by le l)
  unfolding sort_by
  All-sort_by [] h = tt
  All-sort_by (x ∷ xs) h = All-insert_by x (sort_by le xs) h.0 (All-sort_by xs h.1)

module _ {ℓ κ} {A : Type ℓ} (P : A → Type κ) (le : A → A → Bool) where
  All-of_insert_by : (x : A) (l : List A) → All P (insert_by le x l) → P x × All P l
  unfolding insert_by
  All-of_insert_by x [] h = h
  All-of_insert_by x (y ∷ ys) h = elim (Bool-cases (le x y)) [
    | inl e ↦ subst (λ b. All P (if b then x ∷ y ∷ ys else y ∷ insert_by le x ys)) e h
    | inr e ↦
        let k = subst (λ b. All P (if b then x ∷ y ∷ ys else y ∷ insert_by le x ys)) e h in
        let rest = All-of_insert_by x ys k.1 in (rest.0, (k.0, rest.1))
  ]

  pub All-of_sort_by : (l : List A) → All P (sort_by le l) → All P l
  unfolding sort_by
  All-of_sort_by [] h = tt
  All-of_sort_by (x ∷ xs) h =
      let k = All-of_insert_by x (sort_by le xs) h in (k.0, All-of_sort_by xs k.1)

-- For a total and transitive test the result is in order.
module _ {ℓ κ} {A : Type ℓ} {R : A → A → Type κ} (le : A → A → Bool)
    (sound : (a b : A) → le a b ≡ true → R a b) (total : (a b : A) → le a b ≡ false → R b a)
    (trans : (a b c : A) → R a b → R b c → R a c) where
  insert_by-Ordered : (x : A) (l : List A) → Ordered R l → Ordered R (insert_by le x l)
  unfolding insert_by
  insert_by-Ordered x [] h = (tt, tt)
  insert_by-Ordered x (y ∷ ys) h = elim (Bool-cases (le x y)) [
    | inl e ↦
        let below = sound x y e in rw e ((below, All-imp (λ z r. trans x y z below r) ys h.0), h)
    | inr e ↦ rw e (All-insert_by (R y) le x ys (total x y e) h.0, insert_by-Ordered x ys h.1)
  ]

  pub sort_by-Ordered : (l : List A) → Ordered R (sort_by le l)
  unfolding sort_by
  sort_by-Ordered [] = tt
  sort_by-Ordered (x ∷ xs) = insert_by-Ordered x (sort_by le xs) (sort_by-Ordered xs)
