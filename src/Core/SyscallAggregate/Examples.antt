-- ===== src/Core/SyscallAggregate/Examples.antt =====
-- Tests of the groups of system calls: two calls of `read` (0) and one of an unknown number.
use xprobe.Prelude.{ℕ, ◌≡◌, refl, ◌∷◌, [], List, some}
use xprobe.Rust.Str.{text}
use xprobe.Correlator.Statistics.{Float}
use xprobe.Core.SyscallAggregate.{RawSyscallGroup, normalize_group, normalize_groups}
use xprobe.Core.SyscallAggregate.Names.{syscall_name}
use xprobe.Core.SyscallAggregate.Order.{Ranks, normalize_groups-Ranks}
use xprobe.Core.SyscallAggregate.Hints.{Reads, normalize_group-Reads}

abbrev fraction : Float
fraction = record { F = ℕ × ℕ; of_int = λ n. (n, 1); div = λ a b. (a.0, b.0) }

abbrev group_of : (number count total : ℕ) → RawSyscallGroup
group_of number count total = record {
  syscall_number = number;
  count = count;
  errors = 0;
  total_duration_ns = total;
  min_duration_ns = 1;
  max_duration_ns = total;
}

abbrev groups : List RawSyscallGroup
groups = group_of 0 2 10 ∷ group_of 99999 1 30 ∷ group_of 1 0 0 ∷ []

normalize_groups-Ranks_example : Ranks fraction groups (normalize_groups fraction groups)
normalize_groups-Ranks_example = normalize_groups-Ranks fraction groups

reads :
    (normalize_group fraction (group_of 0 2 10)).entry_selector_hint
    ≡ some (text "syscall:read:entry")
unfolding normalize_group syscall_name
reads = refl

normalize_group-Reads_example :
    Reads 0
      (normalize_group fraction (group_of 0 2 10)).entry_selector_hint
      (normalize_group fraction (group_of 0 2 10)).exit_selector_hint
normalize_group-Reads_example = normalize_group-Reads fraction (group_of 0 2 10)
