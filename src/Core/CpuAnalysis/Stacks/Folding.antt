-- ===== src/Core/CpuAnalysis/Stacks/Folding.antt =====
-- What the counting loop of `aggregate_raw_stacks` leaves in its map.
use xprobe.Prelude.{
  Bool-cases, ℕ, ◌+◌, ◌<◌, ◌≡◌, ◌≢◌, sym, ap, ◌∙◌, subst, inl, inr, Bool, true, false, List, [],
  ◌∷◌, arith, unwrap_or, count, length, All, Option-cases, Ordering-cases, if◌then◌else◌,
}
use xprobe.Rust.Words.{u64_mod, saturating_add}
use xprobe.Rust.Ord.{nat_ord, list_ord, list_cmp, list_cmp_self, eq_of_list_cmp}
use xprobe.Rust.BTreeMap.{BTreeMap, get, insert, Ascends, insert-Ascends, All-insert}
use xprobe.Rust.BTreeMap.Lookup.{get-insert, get-insert_other}
use xprobe.Rust.BTreeMap.Entries.{is_eq, weight, weight-insert}
use xprobe.Core.CpuAnalysis.Errors.{RawCpuSample}
use xprobe.Core.CpuAnalysis.Stacks.{Stack, count_stack, count_stacks}

abbrev pub same : Stack → Stack → Bool
same a b = is_eq (list_cmp a b)

-- How many samples have a stack.
unfoldable pub copies : Stack → List RawCpuSample → ℕ
copies stack samples = count (λ sample. same stack sample.addresses) samples

-- The number of a stack in a map; a stack without an entry has none.
unfoldable pub count_at : Stack → BTreeMap Stack ℕ → ℕ
unfolding get
count_at stack groups = unwrap_or (get stack groups) 0

saturating_add_exact : (a b : ℕ) → a + b < u64_mod → saturating_add a b ≡ a + b
unfolding saturating_add
saturating_add_exact a b h = ground arith

-- Without saturation, counting is an insertion.
count_stack-insert :
    (stack : Stack) (groups : BTreeMap Stack ℕ)
    → count_at stack groups + 1 < u64_mod
    → count_stack stack groups ≡ insert stack (count_at stack groups + 1) groups
unfolding count_stack count_at saturating_add
count_stack-insert stack groups h = elim (Option-cases (get stack groups)) [
  | inl e ↦ rw (e, count_stack) (ap (λ i. insert stack i groups) (omega arith))
  | inr (n, e) ↦
      rw (e, count_stack)
        (ap (λ i. insert stack i groups)
          (saturating_add_exact n 1 (subst (λ o. unwrap_or o 0 + 1 < u64_mod) e h)))
]

same-ne : (a b : Stack) → same a b ≡ false → a ≢ b
same-ne a b h e = cc (list_cmp_self b, subst (λ (c : Stack). is_eq (list_cmp c b) ≡ false) e h)

count_at-insert :
    (k stack : Stack) (n : ℕ) (groups : BTreeMap Stack ℕ)
    → count_at k (insert stack n groups) ≡ (if same k stack then n else count_at k groups)
unfolding count_at
count_at-insert k stack n groups = elim (Ordering-cases (list_cmp k stack)) [
  | inr (inl eq) ↦ rw eq (
      subst (λ (i : Stack). unwrap_or (get i (insert stack n groups)) 0 ≡ n)
        (sym (eq_of_list_cmp k stack eq)) (ap (λ o. unwrap_or o 0) (get-insert stack n groups)))
  | inl lt ↦
      rw lt (
        ap (λ o. unwrap_or o 0) (get-insert_other k stack n groups (same-ne k stack (ap is_eq lt))))
  | inr (inr gt) ↦
      rw gt (
        ap (λ o. unwrap_or o 0) (get-insert_other k stack n groups (same-ne k stack (ap is_eq gt))))
]

-- The map during the loop: the numbers so far leave room for the samples to come.
pub record IsGroups (groups : BTreeMap Stack ℕ) (room : ℕ) : Type 0 where
  pub ascends : Ascends groups
  pub positive : All (λ (e : Stack × ℕ). 0 < e.1) groups
  pub bounded : (k : Stack) → count_at k groups + room < u64_mod

pub same-eq : (a b : Stack) → same a b ≡ true → a ≡ b
same-eq a b h = elim (Ordering-cases (list_cmp a b)) [
  | inr (inl eq) ↦ eq_of_list_cmp a b eq
  | inl lt ↦ absurd (cc (subst (λ c. is_eq c ≡ true) lt h))
  | inr (inr gt) ↦ absurd (cc (subst (λ c. is_eq c ≡ true) gt h))
]

count_same :
    (k stack : Stack) (groups : BTreeMap Stack ℕ)
    → count_at stack groups + 1 < u64_mod
    → count_at k (count_stack stack groups) ≡ count_at k groups + (if same k stack then 1 else 0)
count_same k stack groups h =
    ap (count_at k) (count_stack-insert stack groups h)
    ∙ count_at-insert k stack (count_at stack groups + 1) groups
    ∙ elim (Bool-cases (same k stack)) [
      | inl e ↦ rw e (ap (λ i. count_at i groups + 1) (sym (same-eq k stack e)))
      | inr e ↦ rw e (omega arith)
    ]

count_stack-IsGroups :
    (stack : Stack) (groups : BTreeMap Stack ℕ) (room : ℕ)
    → IsGroups groups (room + 1)
    → IsGroups (count_stack stack groups) room
count_stack-IsGroups stack groups room g =
    let few : count_at stack groups + 1 < u64_mod = omega (arith, g.bounded stack) in
    let made = count_stack-insert stack groups few in
    record {
      ascends =
          subst Ascends (sym made)
            (insert-Ascends stack (count_at stack groups + 1) groups g.ascends);
      positive = subst (All (λ (e : Stack × ℕ). 0 < e.1)) (sym made) (
          All-insert (λ (e : Stack × ℕ). 0 < e.1) stack (count_at stack groups + 1) groups
            (omega arith) g.positive);
      bounded = λ k. ground (arith, count_same k stack groups few, g.bounded k);
    }

-- The sum grows by one.
weight-count_stack :
    (stack : Stack) (groups : BTreeMap Stack ℕ)
    → count_at stack groups + 1 < u64_mod
    → weight (count_stack stack groups) ≡ weight groups + 1
unfolding count_at
weight-count_stack stack groups h =
    ap weight (count_stack-insert stack groups h)
    ∙ omega (arith, weight-insert stack (count_at stack groups + 1) groups)

-- What the loop does with a map.
pub record Counts (samples : List RawCpuSample) (before after : BTreeMap Stack ℕ) : Type 0 where
  pub groups : IsGroups after 0
  pub counted : (k : Stack) → count_at k after ≡ count_at k before + copies k samples
  pub total : weight after ≡ weight before + length samples

pub count_stacks-Counts :
    (samples : List RawCpuSample) (groups : BTreeMap Stack ℕ)
    → IsGroups groups (length samples)
    → Counts samples groups (count_stacks samples groups)
unfolding count_stacks copies
count_stacks-Counts [] groups g = record {
  groups = g;
  counted = λ k. omega arith;
  total = omega arith;
}
count_stacks-Counts (sample ∷ samples) groups g =
    let stack = sample.addresses in
    let few : count_at stack groups + 1 < u64_mod = omega (arith, g.bounded stack) in
    let next = count_stack stack groups in
    let rest = count_stacks-Counts samples next (
      count_stack-IsGroups stack groups (length samples)
        (subst (IsGroups groups) (omega arith) g)) in
    record {
      groups = rest.groups;
      counted = λ k. ground (arith, rest.counted k, count_same k stack groups few);
      total = omega (arith, rest.total, weight-count_stack stack groups few);
    }
