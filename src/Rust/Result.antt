-- ===== src/Rust/Result.antt =====
-- `Result`, and the `?` operator as bind.
use xprobe.Prelude.{
  All, arith, List, [], ◌∷◌, ◌≡◌, refl, ◌⊎◌, inl, inr, subst, Option, none, some, Bool, true, false,
}

pub data Result {ℓ κ} (A : Type ℓ) (E : Type κ) : Type (ℓ ⊔ κ) where
  ok : A → Result A E
  err : E → Result A E

module _ {ℓ κ μ} {A : Type ℓ} {B : Type κ} {E : Type μ} where
  infixl 5 ◌>>=◌
  abbrev pub ◌>>=◌ : Result A E → (A → Result B E) → Result B E
  ok a >>= f = f a
  err e >>= f = err e

module _ {ℓ κ} {A : Type ℓ} {E : Type κ} where
  -- `Option::ok_or_else`.
  abbrev pub ok_or : Option A → E → Result A E
  ok_or none e = err e
  ok_or (some a) e = ok a

module _ {ℓ μ} {B : Type ℓ} {E : Type μ} where
  infixl 5 ◌>>◌
  abbrev pub ◌>>◌ : Result (Unit {0}) E → Result B E → Result B E
  m >> k = m >>= λ _. k

module _ {μ} {E : Type μ} where
  -- `if test { return Err(e); }`
  abbrev pub fail_if : Bool → E → Result (Unit {0}) E
  fail_if true e = err e
  fail_if false e = ok tt

module _ {ℓ κ μ} {A : Type ℓ} {E : Type κ} where
  -- What holds of a result, if there is one.
  unfoldable pub OnOk : (A → Type μ) → Result A E → Type μ
  OnOk Q (ok a) = Q a
  OnOk Q (err e) = Unit

  pub OnOk-get : (Q : A → Type μ) {m : Result A E} {a : A} → OnOk Q m → m ≡ ok a → Q a
  unfolding OnOk
  OnOk-get Q h e = subst (OnOk Q) e h

module _ {ℓ μ} {B : Type ℓ} {E : Type μ} where
  pub Result-cases : (m : Result B E) → ((a : B) × (m ≡ ok a)) ⊎ ((e : E) × (m ≡ err e))
  Result-cases (ok a) = inl (a, refl)
  Result-cases (err e) = inr (e, refl)

-- `map(f).collect::<Result<Vec<_>, _>>()`: up to the first error.
module _ {ℓ κ μ} {A : Type ℓ} {B : Type κ} {E : Type μ} where
  unfoldable pub traverse : (A → Result B E) → List A → Result (List B) E
  traverse f [] = ok []
  traverse f (x ∷ xs) = f x >>= λ y. traverse f xs >>= λ ys. ok (y ∷ ys)

  -- `Result::map`.
  abbrev pub map_ok : (A → B) → Result A E → Result B E
  map_ok f (ok a) = ok (f a)
  map_ok f (err e) = err e

module _ {ℓ κ μ} {A : Type ℓ} {E : Type κ} {G : Type μ} where
  -- `Result::map_err`.
  abbrev pub map_err : (E → G) → Result A E → Result A G
  map_err f (ok a) = ok a
  map_err f (err e) = err (f e)

-- What has succeeded in a chain that succeeds.
module _ {ℓ κ μ} {A : Type ℓ} {B : Type κ} {E : Type μ} where
  pub >>=-ok :
      (m : Result A E) (f : A → Result B E) {b : B}
      → (m >>= f) ≡ ok b
      → (a : A) × (m ≡ ok a) × (f a ≡ ok b)
  >>=-ok (ok a) f h = (a, refl, h)
  >>=-ok (err e) f h = cc

module _ {κ μ} {B : Type κ} {E : Type μ} where
  pub fail_if-ok :
      (test : Bool) (e : E) (m : Result B E) {b : B}
      → (fail_if test e >> m) ≡ ok b
      → (test ≡ false) × (m ≡ ok b)
  fail_if-ok true e m h = cc
  fail_if-ok false e m h = (refl, h)

module _ {ℓ μ} {A : Type ℓ} {E : Type μ} where
  pub ok_or-ok : (o : Option A) (e : E) {a : A} → ok_or o e ≡ ok a → o ≡ some a
  ok_or-ok none e h = cc
  ok_or-ok (some a) e h = ground (arith, h)

  pub ok-injective : {a b : A} → ◌≡◌ {A = Result A E} (ok a) (ok b) → a ≡ b
  ok-injective h = cc

module _ {ℓ κ μ ν} {A : Type ℓ} {B : Type κ} {E : Type μ} (P : B → Type ν) where
  pub All-traverse :
      (f : A → Result B E) (xs : List A) {ys : List B}
      → ((x : A) (y : B) → f x ≡ ok y → P y)
      → traverse f xs ≡ ok ys
      → All P ys
  unfolding traverse
  All-traverse f [] {ys} p h = subst (All P) {x = []} (ok-injective h) tt
  All-traverse f (x ∷ xs) {ys} p h =
      let (y, first, h1) = >>=-ok (f x) _ h in
      let (rest, later, h2) = >>=-ok (traverse f xs) _ h1 in
      subst (All P) {x = y ∷ rest} (ok-injective h2) (p x y first, All-traverse f xs p later)
