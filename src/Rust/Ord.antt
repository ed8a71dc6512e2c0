-- ===== src/Rust/Ord.antt =====
-- `Ord` and what `#[derive(Ord)]` gives: an order on each key type of a `BTreeMap`.
use xprobe.Prelude.{ℕ, ◌≡◌, refl, ap, Option, none, some, List, [], ◌∷◌, compare, Ordering, arith}

-- A total order by a three-way comparison.
pub record Ord {ℓ} (A : Type ℓ) : Type ℓ where
  pub cmp : A → A → Ordering
  pub eq_of_cmp : (a b : A) → cmp a b ≡ Ordering.eq → a ≡ b
  pub cmp_self : (a : A) → cmp a a ≡ Ordering.eq
  pub lt_of_gt : (a b : A) → cmp a b ≡ Ordering.gt → cmp b a ≡ Ordering.lt
  pub lt_trans : (a b c : A) → cmp a b ≡ Ordering.lt → cmp b c ≡ Ordering.lt → cmp a c ≡ Ordering.lt

pub compare_self : (a : ℕ) → compare a a ≡ Ordering.eq
compare_self a = ground arith

pub eq_of_compare : (a b : ℕ) → compare a b ≡ Ordering.eq → a ≡ b
eq_of_compare a b h = ground arith

pub lt_of_compare_gt : (a b : ℕ) → compare a b ≡ Ordering.gt → compare b a ≡ Ordering.lt
lt_of_compare_gt a b h = ground arith

pub compare_trans :
    (a b c : ℕ) → compare a b ≡ Ordering.lt → compare b c ≡ Ordering.lt → compare a c ≡ Ordering.lt
compare_trans a b c h k = ground arith

instance abbrev pub nat_ord : Ord ℕ
nat_ord = record {
  cmp = compare;
  eq_of_cmp = eq_of_compare;
  cmp_self = compare_self;
  lt_of_gt = lt_of_compare_gt;
  lt_trans = compare_trans;
}

-- `Ordering::then`.
abbrev pub then_cmp : Ordering → Ordering → Ordering
then_cmp Ordering.eq d = d
then_cmp Ordering.lt d = Ordering.lt
then_cmp Ordering.gt d = Ordering.gt

-- Tuples compare field by field; a longer tuple is nested to the right.
module _ {ℓ κ} {A : Type ℓ} {B : Type κ} ⦃o : Ord A⦄ ⦃p : Ord B⦄ where
  abbrev pub pair_cmp : A × B → A × B → Ordering
  pair_cmp (a, b) (c, d) = then_cmp (o.cmp a c) (p.cmp b d)

  pub eq_of_pair_cmp : (x y : A × B) → pair_cmp x y ≡ Ordering.eq → x ≡ y
  eq_of_pair_cmp (a, b) (c, d) h = ground (arith, o.eq_of_cmp a c, p.eq_of_cmp b d)

  pub pair_cmp_self : (x : A × B) → pair_cmp x x ≡ Ordering.eq
  pair_cmp_self (a, b) = ground (arith, o.cmp_self a, p.cmp_self b)

  pub lt_of_pair_cmp_gt : (x y : A × B) → pair_cmp x y ≡ Ordering.gt → pair_cmp y x ≡ Ordering.lt
  lt_of_pair_cmp_gt (a, b) (c, d) h =
      ground (arith, o.eq_of_cmp a c, o.cmp_self a, o.lt_of_gt a c, p.lt_of_gt b d)

  pub pair_cmp_trans :
      (x y z : A × B)
      → pair_cmp x y ≡ Ordering.lt
      → pair_cmp y z ≡ Ordering.lt
      → pair_cmp x z ≡ Ordering.lt
  pair_cmp_trans (a, b) (c, d) (e, f) h k =
      ground
        (arith, o.eq_of_cmp a c, o.eq_of_cmp c e, o.cmp_self a, o.lt_trans a c e, p.lt_trans b d f)

  instance abbrev pub pair_ord : Ord (A × B)
  pair_ord = record {
    cmp = pair_cmp;
    eq_of_cmp = eq_of_pair_cmp;
    cmp_self = pair_cmp_self;
    lt_of_gt = lt_of_pair_cmp_gt;
    lt_trans = pair_cmp_trans;
  }

-- `None` comes before every `Some`.
module _ {ℓ} {A : Type ℓ} ⦃o : Ord A⦄ where
  abbrev pub option_cmp : Option A → Option A → Ordering
  option_cmp none none = Ordering.eq
  option_cmp none (some b) = Ordering.lt
  option_cmp (some a) none = Ordering.gt
  option_cmp (some a) (some b) = o.cmp a b

  pub eq_of_option_cmp : (x y : Option A) → option_cmp x y ≡ Ordering.eq → x ≡ y
  eq_of_option_cmp none none h = ground arith
  eq_of_option_cmp none (some b) h = cc
  eq_of_option_cmp (some a) none h = cc
  eq_of_option_cmp (some a) (some b) h = ap some (o.eq_of_cmp a b h)

  pub option_cmp_self : (x : Option A) → option_cmp x x ≡ Ordering.eq
  option_cmp_self none = ground arith
  option_cmp_self (some a) = o.cmp_self a

  pub lt_of_option_cmp_gt :
      (x y : Option A) → option_cmp x y ≡ Ordering.gt → option_cmp y x ≡ Ordering.lt
  lt_of_option_cmp_gt none none h = cc
  lt_of_option_cmp_gt none (some b) h = cc
  lt_of_option_cmp_gt (some a) none h = ground arith
  lt_of_option_cmp_gt (some a) (some b) h = o.lt_of_gt a b h

  pub option_cmp_trans :
      (x y z : Option A)
      → option_cmp x y ≡ Ordering.lt
      → option_cmp y z ≡ Ordering.lt
      → option_cmp x z ≡ Ordering.lt
  option_cmp_trans none none z h k = cc
  option_cmp_trans none (some b) none h k = cc
  option_cmp_trans none (some b) (some c) h k = ground arith
  option_cmp_trans (some a) none z h k = cc
  option_cmp_trans (some a) (some b) none h k = cc
  option_cmp_trans (some a) (some b) (some c) h k = o.lt_trans a b c h k

  instance abbrev pub option_ord : Ord (Option A)
  option_ord = record {
    cmp = option_cmp;
    eq_of_cmp = eq_of_option_cmp;
    cmp_self = option_cmp_self;
    lt_of_gt = lt_of_option_cmp_gt;
    lt_trans = option_cmp_trans;
  }

-- Sequences compare element by element, and a prefix comes first.
module _ {ℓ} {A : Type ℓ} ⦃o : Ord A⦄ where
  abbrev pub list_cmp : List A → List A → Ordering
  list_cmp [] [] = Ordering.eq
  list_cmp [] (b ∷ t) = Ordering.lt
  list_cmp (a ∷ s) [] = Ordering.gt
  list_cmp (a ∷ s) (b ∷ t) = then_cmp (o.cmp a b) (list_cmp s t)

  pub eq_of_list_cmp : (x y : List A) → list_cmp x y ≡ Ordering.eq → x ≡ y
  eq_of_list_cmp [] [] h = refl
  eq_of_list_cmp [] (b ∷ t) h = cc
  eq_of_list_cmp (a ∷ s) [] h = cc
  eq_of_list_cmp (a ∷ s) (b ∷ t) h = ground (arith, o.eq_of_cmp a b, eq_of_list_cmp s t)

  pub list_cmp_self : (x : List A) → list_cmp x x ≡ Ordering.eq
  list_cmp_self [] = refl
  list_cmp_self (a ∷ s) = ground (arith, o.cmp_self a, list_cmp_self s)

  pub lt_of_list_cmp_gt : (x y : List A) → list_cmp x y ≡ Ordering.gt → list_cmp y x ≡ Ordering.lt
  lt_of_list_cmp_gt [] [] h = cc
  lt_of_list_cmp_gt [] (b ∷ t) h = cc
  lt_of_list_cmp_gt (a ∷ s) [] h = refl
  lt_of_list_cmp_gt (a ∷ s) (b ∷ t) h =
      ground (arith, o.eq_of_cmp a b, o.cmp_self a, o.lt_of_gt a b, lt_of_list_cmp_gt s t)

  pub list_cmp_trans :
      (x y z : List A)
      → list_cmp x y ≡ Ordering.lt
      → list_cmp y z ≡ Ordering.lt
      → list_cmp x z ≡ Ordering.lt
  list_cmp_trans [] [] z h k = cc
  list_cmp_trans [] (b ∷ t) [] h k = cc
  list_cmp_trans [] (b ∷ t) (c ∷ u) h k = refl
  list_cmp_trans (a ∷ s) [] z h k = cc
  list_cmp_trans (a ∷ s) (b ∷ t) [] h k = cc
  list_cmp_trans (a ∷ s) (b ∷ t) (c ∷ u) h k = ground (
    arith,
    o.eq_of_cmp a b,
    o.eq_of_cmp b c,
    o.cmp_self a,
    o.lt_trans a b c,
    list_cmp_trans s t u,
  )

  instance abbrev pub list_ord : Ord (List A)
  list_ord = record {
    cmp = list_cmp;
    eq_of_cmp = eq_of_list_cmp;
    cmp_self = list_cmp_self;
    lt_of_gt = lt_of_list_cmp_gt;
    lt_trans = list_cmp_trans;
  }

-- The order of a type that is read off another one through an injection, as a derived `Ord` on an
-- enum reads its variant and then its fields.
abbrev pub ord_by {ℓ κ} :
    {A : Type ℓ} {B : Type κ} (f : A → B) → ((a b : A) → f a ≡ f b → a ≡ b) → Ord B → Ord A
ord_by f inj o = record {
  cmp = λ a b. o.cmp (f a) (f b);
  eq_of_cmp = λ a b h. inj a b (o.eq_of_cmp (f a) (f b) h);
  cmp_self = λ a. o.cmp_self (f a);
  lt_of_gt = λ a b h. o.lt_of_gt (f a) (f b) h;
  lt_trans = λ a b c h k. o.lt_trans (f a) (f b) (f c) h k;
}
