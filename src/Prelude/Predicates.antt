-- ===== src/Prelude/Predicates.antt =====
-- Predicates on lists by recursion, which the tactics read and build, and how they move through the
-- list functions.
use Prim.Native.Nat.{ℕ, zero, suc, ◌+◌, ◌<◌}
use mathlib.Core.Path.{◌≡◌}
use mathlib.Core.Logic.{inl, inr}
use mathlib.Core.Bool.{Bool, true}
use mathlib.Core.Option.{some}
use mathlib.Core.List.{List, [], ◌∷◌, ◌++◌}
use native.Mathlib.Omega.{arith}
use xprobe.Prelude.Tests.{Bool-cases}
use xprobe.Prelude.Lists.{drop, count, all, take, select, get_elem?}

module _ {ℓ κ} {A : Type ℓ} where
  -- Every element satisfies `P`.
  abbrev pub All : (A → Type κ) → List A → Type κ
  All P [] = Unit
  All P (x ∷ xs) = P x × All P xs

  pub All-append : (P : A → Type κ) (xs ys : List A) → All P xs → All P ys → All P (xs ++ ys)
  All-append P [] ys h k = k
  All-append P (x ∷ xs) ys h k = (h.0, All-append P xs ys h.1 k)

  pub All-append_left : (P : A → Type κ) (xs ys : List A) → All P (xs ++ ys) → All P xs
  All-append_left P [] ys h = tt
  All-append_left P (x ∷ xs) ys h = (h.0, All-append_left P xs ys h.1)

  pub All-append_right : (P : A → Type κ) (xs ys : List A) → All P (xs ++ ys) → All P ys
  All-append_right P [] ys h = h
  All-append_right P (x ∷ xs) ys h = All-append_right P xs ys h.1

  pub All-of_forall : (P : A → Type κ) → ((x : A) → P x) → (xs : List A) → All P xs
  All-of_forall P f [] = tt
  All-of_forall P f (x ∷ xs) = (f x, All-of_forall P f xs)

  pub All-take : (P : A → Type κ) (n : ℕ) (xs : List A) → All P xs → All P (take n xs)
  All-take P zero xs h = tt
  All-take P (suc n) [] h = tt
  All-take P (suc n) (x ∷ xs) h = (h.0, All-take P n xs h.1)

  pub All-select : (P : A → Type κ) (p : A → Bool) (xs : List A) → All P xs → All P (select p xs)
  All-select P p [] h = tt
  All-select P p (x ∷ xs) h = elim (Bool-cases (p x)) [
    | inl e ↦ rw e (h.0, All-select P p xs h.1)
    | inr e ↦ rw e (All-select P p xs h.1)
  ]

  pub All-get_elem? :
      (P : A → Type κ) (xs : List A) (i : ℕ) (x : A) → All P xs → get_elem? xs i ≡ some x → P x
  All-get_elem? P [] i x h e = cc
  All-get_elem? P (y ∷ ys) zero x h e = ground (arith, h.0)
  All-get_elem? P (y ∷ ys) (suc i) x h e = All-get_elem? P ys i x h.1 e

module _ {ℓ κ μ} {A : Type ℓ} where
  pub All-imp :
      {P : A → Type κ} {Q : A → Type μ} (f : (x : A) → P x → Q x) (xs : List A)
      → All P xs
      → All Q xs
  All-imp f [] h = tt
  All-imp f (x ∷ xs) h = (f x h.0, All-imp f xs h.1)

module _ {ℓ} {A : Type ℓ} where
  -- What a filter lets through satisfies its test.
  pub All-select_test : (p : A → Bool) (xs : List A) → All (λ x. p x ≡ true) (select p xs)
  All-select_test p [] = tt
  All-select_test p (x ∷ xs) = elim (Bool-cases (p x)) [
    | inl e ↦ rw e (e, All-select_test p xs)
    | inr e ↦ rw e (All-select_test p xs)
  ]

-- Every element relates to all the later ones.
module _ {ℓ κ} {A : Type ℓ} where
  abbrev pub Ordered : (A → A → Type κ) → List A → Type κ
  Ordered R [] = Unit
  Ordered R (x ∷ xs) = All (R x) xs × Ordered R xs

  pub Ordered-select :
      (R : A → A → Type κ) (p : A → Bool) (xs : List A) → Ordered R xs → Ordered R (select p xs)
  Ordered-select R p [] h = tt
  Ordered-select R p (x ∷ xs) h = elim (Bool-cases (p x)) [
    | inl e ↦ rw e (All-select (R x) p xs h.0, Ordered-select R p xs h.1)
    | inr e ↦ rw e (Ordered-select R p xs h.1)
  ]

module _ {ℓ κ} {A : Type ℓ} (R : A → A → Type κ) where
  pub Ordered-last :
      (xs : List A) (x : A) → Ordered R xs → All (λ y. R y x) xs → Ordered R (xs ++ x ∷ [])
  Ordered-last [] x h k = (tt, tt)
  Ordered-last (y ∷ xs) x h k =
      (All-append (R y) xs (x ∷ []) h.0 (k.0, tt), Ordered-last xs x h.1 k.1)

  pub Ordered-of_last :
      (xs : List A) (x : A) → Ordered R (xs ++ x ∷ []) → Ordered R xs × All (λ y. R y x) xs
  Ordered-of_last [] x h = (tt, tt)
  Ordered-of_last (y ∷ xs) x h =
      let rest = Ordered-of_last xs x h.1 in
      (
        (All-append_left (R y) xs (x ∷ []) h.0, rest.0),
        ((All-append_right (R y) xs (x ∷ []) h.0).0, rest.1),
      )

module _ {ℓ κ μ ν} {A : Type ℓ} where
  pub All-both :
      {P : A → Type κ} {Q : A → Type μ} {R : A → Type ν} (f : (x : A) → P x → Q x → R x)
      (xs : List A)
      → All P xs
      → All Q xs
      → All R xs
  All-both f [] h k = tt
  All-both f (x ∷ xs) h k = (f x h.0 k.0, All-both f xs h.1 k.1)

module _ {ℓ κ μ} {A : Type ℓ} where
  -- A condition that does not depend on the element.
  pub All-if : {Q : Type κ} (R : A → Type μ) (xs : List A) → (Q → All R xs) → All (λ x. Q → R x) xs
  All-if R [] h = tt
  All-if R (x ∷ xs) h = ((λ q. (h q).0), All-if R xs (λ q. (h q).1))

module _ {ℓ} {A : Type ℓ} where
  -- From the Boolean test of a whole list.
  pub All-of_all : (p : A → Bool) (xs : List A) → all p xs ≡ true → All (λ x. p x ≡ true) xs
  All-of_all p [] h = tt
  All-of_all p (x ∷ xs) h = (ground arith, All-of_all p xs (ground arith))

-- Cutting a list in two.
module _ {ℓ κ} {A : Type ℓ} where
  pub All-drop : (P : A → Type κ) (n : ℕ) (xs : List A) → All P xs → All P (drop n xs)
  All-drop P zero xs h = h
  All-drop P (suc n) [] h = tt
  All-drop P (suc n) (x ∷ xs) h = All-drop P n xs h.1

  pub Ordered-take :
      (R : A → A → Type κ) (n : ℕ) (xs : List A) → Ordered R xs → Ordered R (take n xs)
  Ordered-take R zero xs h = tt
  Ordered-take R (suc n) [] h = tt
  Ordered-take R (suc n) (x ∷ xs) h = (All-take (R x) n xs h.0, Ordered-take R n xs h.1)

  -- Whatever is cut off relates to all that is kept.
  pub Ordered-cut :
      (R : A → A → Type κ) (n : ℕ) (xs : List A)
      → Ordered R xs
      → All (λ y. All (λ x. R x y) (take n xs)) (drop n xs)
  Ordered-cut R zero xs h = All-of_forall (λ y. Unit) (λ y. tt) xs
  Ordered-cut R (suc n) [] h = tt
  Ordered-cut R (suc n) (x ∷ xs) h =
      All-both (λ y r s. (r, s)) (drop n xs) (All-drop (R x) n xs h.0) (Ordered-cut R n xs h.1)

  -- A test that passes somewhere passes at an element with whatever all of them have.
  pub All-find :
      (P : A → Type κ) (p : A → Bool) (xs : List A)
      → All P xs
      → 0 < count p xs
      → (x : A) × (p x ≡ true) × P x
  All-find P p [] h k = absurd (omega arith)
  All-find P p (x ∷ xs) h k = elim (Bool-cases (p x)) [
    | inl e ↦ (x, e, h.0)
    | inr e ↦ All-find P p xs h.1 (ground arith)
  ]

module _ {ℓ} {A : Type ℓ} where
  pub count-cut :
      (p : A → Bool) (n : ℕ) (xs : List A) → count p xs ≡ count p (take n xs) + count p (drop n xs)
  count-cut p zero xs = omega arith
  count-cut p (suc n) [] = omega arith
  count-cut p (suc n) (x ∷ xs) = ground (arith, count-cut p n xs)
