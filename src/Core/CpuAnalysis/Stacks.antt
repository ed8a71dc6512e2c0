-- ===== src/Core/CpuAnalysis/Stacks.antt =====
-- The folding of stacks: `aggregate_raw_stacks` of xprobe/core/src/cpu_sampling_analysis.rs.
pub mod Folding
pub mod Heaviest
use xprobe.Prelude.{
  ℕ, ◌+◌, Bool, true, false, ltb, if◌then◌else◌, Option, none, some, List, [], ◌∷◌, length, take,
  compare, Ordering,
}
use xprobe.Rust.Words.{saturating_add}
use xprobe.Rust.Ord.{Ord, nat_ord, list_ord, list_cmp, then_cmp}
use xprobe.Rust.BTreeMap.{BTreeMap, get, insert}
use xprobe.Rust.Sort.{sort_by}
use xprobe.Core.CpuAnalysis.Errors.{RawCpuSample}

abbrev pub Stack : Type 0
Stack = List ℕ

-- `entry(key).and_modify(|count| count.saturating_add(1)).or_insert(1)`.
unfoldable pub count_stack : Stack → BTreeMap Stack ℕ → BTreeMap Stack ℕ
unfolding get insert saturating_add
count_stack stack groups = elim (get stack groups) [
  | some count ↦ insert stack (saturating_add count 1) groups
  | none ↦ insert stack 1 groups
]

unfoldable pub count_stacks : List RawCpuSample → BTreeMap Stack ℕ → BTreeMap Stack ℕ
unfolding count_stack
count_stacks [] groups = groups
count_stacks (sample ∷ samples) groups = count_stacks samples (count_stack sample.addresses groups)

-- Whether a comparison lets its left side stand first.
abbrev pub is_le : Ordering → Bool
is_le Ordering.gt = false
is_le _ = true

-- More samples first, and equal numbers in the order of the stacks.
abbrev pub heavier : Stack × ℕ → Stack × ℕ → Bool
heavier (left_stack, left_count) (right_stack, right_count) =
    is_le (then_cmp (compare right_count left_count) (list_cmp left_stack right_stack))

unfoldable pub aggregate_raw_stacks :
    (samples : List RawCpuSample) → (max_groups : ℕ) → List (Stack × ℕ) × Bool
unfolding count_stacks sort_by
aggregate_raw_stacks samples max_groups =
    let groups = sort_by heavier (count_stacks samples []) in
    (take max_groups groups, ltb max_groups (length groups))
