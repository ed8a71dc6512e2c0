-- ===== src/Core/SyscallAggregate/Order.antt =====
-- The order of the groups of xprobe/core/src/syscall_aggregate.rs.
use mathlib.Core.List.{Perm}
use xprobe.Prelude.{
  ◌⊎◌, ◌<◌, ◌≤◌, ◌≡◌, true, false, not, List, [], ◌∷◌, map, arith, ◌==◌, select, All,
  All-select_test, Ordered,
}
use xprobe.Rust.Sort.{sort_by-perm, sort_by-Ordered, All-sort_by}
use xprobe.Correlator.Statistics.{Float}
use xprobe.Protocol.SyscallAggregate.{SyscallAggregateGroup}
use xprobe.Core.SyscallAggregate.{RawSyscallGroup, normalize_group, normalize_groups, costlier}

module _ (f : Float) where
  open f use {F}

  -- The total time decides, then the number of calls.
  abbrev pub Costs : SyscallAggregateGroup F → SyscallAggregateGroup F → Type 0
  Costs a b =
      (b.duration_ns.total < a.duration_ns.total)
      ⊎ ((b.duration_ns.total ≡ a.duration_ns.total) × (b.count ≤ a.count))

  costlier-Costs : (a b : SyscallAggregateGroup F) → costlier f a b ≡ true → Costs a b
  costlier-Costs a b h = ground (arith, h)

  not_costlier-Costs : (a b : SyscallAggregateGroup F) → costlier f a b ≡ false → Costs b a
  not_costlier-Costs a b h = ground (arith, h)

  Costs-trans : (a b c : SyscallAggregateGroup F) → Costs a b → Costs b c → Costs a c
  Costs-trans a b c h k = ground (arith, h, k)

  -- The groups that were called, each once and the costliest first.
  pub record Ranks (groups : List RawSyscallGroup) (ranked : List (SyscallAggregateGroup F))
      : Type 0 where
    pub rearranged :
        Perm ranked (map (normalize_group f) (select (λ group. not (group.count == 0)) groups))
    pub ordered : Ordered Costs ranked
    pub called : All (λ group. 0 < group.count) ranked

  counted :
      (groups : List RawSyscallGroup)
      → All (λ group. not (group.count == 0) ≡ true) groups
      → All (λ (group : SyscallAggregateGroup F). 0 < group.count) (map (normalize_group f) groups)
  unfolding normalize_group
  counted [] h = tt
  counted (group ∷ groups) h = (ground (arith, h.0), counted groups h.1)

  -- The groups of a system call inventory are the captured groups that were called, normalised,
  -- each once, in descending order of the total time and then of the number of calls.
  pub normalize_groups-Ranks :
      (groups : List RawSyscallGroup) → Ranks groups (normalize_groups f groups)
  unfolding normalize_groups
  normalize_groups-Ranks groups =
      let some' = select (λ group. not (group.count == 0)) groups in
      record {
        rearranged = sort_by-perm (costlier f) (map (normalize_group f) some');
        ordered =
            sort_by-Ordered (costlier f) costlier-Costs not_costlier-Costs Costs-trans
              (map (normalize_group f) some');
        called =
            All-sort_by (λ group. 0 < group.count) (costlier f) (map (normalize_group f) some')
              (counted some' (All-select_test (λ group. not (group.count == 0)) groups));
      }
