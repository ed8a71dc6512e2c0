-- ===== src/Core/CpuAnalysis/Stacks/Heaviest.antt =====
-- What `aggregate_raw_stacks` of xprobe/core/src/cpu_sampling_analysis.rs keeps of the stacks.
use xprobe.Prelude.{
  zero, ltb→lt, suc, ℕ, ◌<◌, ◌≤◌, ◌≡◌, ◌⊎◌, refl, sym, ap, ◌∙◌, subst, inl, inr, Bool, true, false,
  some, List, [], ◌∷◌, arith, ltb, unwrap_or, count, length, take, drop, All, All-both, All-take,
  All-drop, All-find, Ordered, Ordered-take, Ordered-cut, count-cut, length-take, Option-cases,
  Bool-cases,
}
use xprobe.Rust.Words.{u64_mod}
use xprobe.Rust.Ord.{nat_ord, list_ord}
use xprobe.Rust.Sort.{sort_by, count-sort_by, All-sort_by, sort_by-Ordered}
use xprobe.Rust.BTreeMap.{BTreeMap, get}
use xprobe.Rust.BTreeMap.Entries.{get-entries, count-get, weight, weight-sort_by}
use xprobe.Core.CpuAnalysis.Errors.{RawCpuSample}
use xprobe.Core.CpuAnalysis.Stacks.{Stack, count_stacks, heavier, aggregate_raw_stacks}
use xprobe.Core.CpuAnalysis.Stacks.Folding.{
  same, same-eq, copies, count_at, IsGroups, count_stacks-Counts,
}

-- The group of a stack stands in a list.
abbrev pub stands : Stack → List (Stack × ℕ) → ℕ
stands stack kept = count (λ (e : Stack × ℕ). same stack e.0) kept

-- A folding of samples into at most so many groups.
pub record Folds (samples : List RawCpuSample) (max_groups : ℕ) (folded : List (Stack × ℕ) × Bool)
    : Type 0 where
  pub counted : All (λ (e : Stack × ℕ). (e.1 ≡ copies e.0 samples) × (0 < e.1)) folded.0
  pub bounded : length folded.0 ≤ max_groups
  pub ranked : Ordered (λ (a b : Stack × ℕ). b.1 ≤ a.1) folded.0
  pub heaviest :
      (stack : Stack)
      → 0 < copies stack samples
      → (0 < stands stack folded.0) ⊎ All (λ (e : Stack × ℕ). copies stack samples ≤ e.1) folded.0
  pub complete :
      folded.1 ≡ false
      → (weight folded.0 ≡ length samples)
        × ((stack : Stack) → 0 < copies stack samples → 0 < stands stack folded.0)

heavier-le : (a b : Stack × ℕ) → heavier a b ≡ true → b.1 ≤ a.1
heavier-le a b h = ground arith

not_heavier-le : (a b : Stack × ℕ) → heavier a b ≡ false → a.1 ≤ b.1
not_heavier-le a b h = ground arith

take_all : {A : Type 0} (n : ℕ) (l : List A) → length l ≤ n → take n l ≡ l
take_all zero [] h = refl
take_all zero (x ∷ l) h = absurd (omega arith)
take_all (suc n) [] h = refl
take_all (suc n) (x ∷ l) h = ap (◌∷◌ x) (take_all n l (omega arith))

-- Of a map whose numbers are known.
module _ (samples : List RawCpuSample) (groups : BTreeMap Stack ℕ) (g : IsGroups groups 0)
    (counted : (k : Stack) → count_at k groups ≡ copies k samples) where
  entry_count :
      (e : Stack × ℕ) → get e.0 groups ≡ some e.1 → 0 < e.1 → (e.1 ≡ copies e.0 samples) × (0 < e.1)
  unfolding count_at
  entry_count (k, n) h p = (ap (λ o. unwrap_or o 0) (sym h) ∙ counted k, p)

  entries_counted : All (λ (e : Stack × ℕ). (e.1 ≡ copies e.0 samples) × (0 < e.1)) groups
  entries_counted = All-both entry_count groups (get-entries groups g.ascends) g.positive

  stands_in : (stack : Stack) → 0 < copies stack samples → 0 < stands stack groups
  unfolding count_at
  stands_in stack h = elim (Option-cases (get stack groups)) [
    | inl e ↦ absurd (omega (arith, counted stack, ap (λ o. unwrap_or o 0) e))
    | inr (n, e) ↦ count-get stack groups e
  ]

  -- A group that is cut off weighs no more than those that are kept.
  cut_off :
      (n : ℕ) (stack : Stack) (e : Stack × ℕ)
      → same stack e.0 ≡ true
      → (e.1 ≡ copies e.0 samples) × (0 < e.1)
      → All (λ (x : Stack × ℕ). e.1 ≤ x.1) (take n (sort_by heavier groups))
      → All (λ (x : Stack × ℕ). copies stack samples ≤ x.1) (take n (sort_by heavier groups))
  cut_off n stack e is weighs above =
      subst (λ i. All (λ (x : Stack × ℕ). i ≤ x.1) (take n (sort_by heavier groups)))
        (weighs.0 ∙ ap (λ i. copies i samples) (sym (same-eq stack e.0 is))) above

  dropped :
      (n : ℕ) (stack : Stack)
      → 0 < copies stack samples
      → ltb 0 (stands stack (take n (sort_by heavier groups))) ≡ false
      → 0 < stands stack (drop n (sort_by heavier groups))
  dropped n stack h e = ground (
    arith,
    count-cut (λ (y : Stack × ℕ). same stack y.0) n (sort_by heavier groups),
    count-sort_by heavier (λ (y : Stack × ℕ). same stack y.0) groups,
    stands_in stack h,
  )

  cut :
      (n : ℕ) (stack : Stack)
      → 0 < copies stack samples
      → (0 < stands stack (take n (sort_by heavier groups)))
        ⊎ All (λ (e : Stack × ℕ). copies stack samples ≤ e.1) (take n (sort_by heavier groups))
  cut n stack h =
      let sorted = sort_by heavier groups in
      elim (Bool-cases (ltb 0 (stands stack (take n sorted)))) [
        | inl e ↦ inl (ltb→lt 0 (stands stack (take n sorted)) e)
        | inr e ↦
            let facts =
              All-drop (λ (x : Stack × ℕ). (x.1 ≡ copies x.0 samples) × (0 < x.1)) n sorted
                (All-sort_by (λ (x : Stack × ℕ). (x.1 ≡ copies x.0 samples) × (0 < x.1)) heavier
                  groups entries_counted) in
            let order =
              Ordered-cut (λ (a b : Stack × ℕ). b.1 ≤ a.1) n sorted
                (sort_by-Ordered heavier heavier-le not_heavier-le (λ a b c p q. omega arith)
                  groups) in
            let (x, is, found) =
              All-find
                (λ (y : Stack × ℕ).
                  ((y.1 ≡ copies y.0 samples) × (0 < y.1))
                  × All (λ (z : Stack × ℕ). y.1 ≤ z.1) (take n sorted))
                (λ (y : Stack × ℕ). same stack y.0) (drop n sorted)
                (All-both (λ y p q. (p, q)) (drop n sorted) facts order) (dropped n stack h e) in
            inr (cut_off n stack x is found.0 found.1)
      ]

no_groups : (room : ℕ) → room < u64_mod → IsGroups [] room
unfolding count_at
no_groups room h = record { ascends = tt; positive = tt; bounded = λ k. omega arith }

take_if : {A : Type 0} (n : ℕ) (l : List A) → ltb n (length l) ≡ false → take n l ≡ l
take_if n l h = take_all n l (ground arith)

-- For fewer than 2^64 samples, the groups of `aggregate_raw_stacks` are at most the given number,
-- each with exactly the number of samples that have its stack, at least one, the heavier ones
-- first; a stack that has no group has no more samples than any group; and if the capacity was
-- not reached, every sampled stack has a group and the numbers add up to the samples.
pub aggregate_raw_stacks-Folds :
    (samples : List RawCpuSample) (max_groups : ℕ)
    → length samples < u64_mod
    → Folds samples max_groups (aggregate_raw_stacks samples max_groups)
unfolding aggregate_raw_stacks count_at weight
aggregate_raw_stacks-Folds samples n h =
    let result = count_stacks-Counts samples [] (no_groups (length samples) h) in
    let groups = count_stacks samples [] in
    let sorted = sort_by heavier groups in
    let counted : (k : Stack) → count_at k groups ≡ copies k samples =
      λ k. result.counted k ∙ omega arith in
    let entries = entries_counted samples groups result.groups counted in
    record {
      counted =
          All-take (λ (e : Stack × ℕ). (e.1 ≡ copies e.0 samples) × (0 < e.1)) n sorted
            (All-sort_by (λ (e : Stack × ℕ). (e.1 ≡ copies e.0 samples) × (0 < e.1)) heavier groups
              entries);
      bounded = omega (arith, length-take n sorted);
      ranked =
          Ordered-take (λ (a b : Stack × ℕ). b.1 ≤ a.1) n sorted
            (sort_by-Ordered heavier heavier-le not_heavier-le (λ a b c p q. omega arith) groups);
      heaviest = cut samples groups result.groups counted n;
      complete = λ reached.
          let whole = take_if n sorted reached in
          (
            ap weight whole ∙ weight-sort_by heavier groups ∙ result.total ∙ omega arith,
            λ stack present. omega (
              arith,
              ap (stands stack) whole,
              count-sort_by heavier (λ (y : Stack × ℕ). same stack y.0) groups,
              stands_in samples groups result.groups counted stack present,
            ),
          );
    }
