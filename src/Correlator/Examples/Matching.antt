-- ===== src/Correlator/Examples/Matching.antt =====
-- The matching functions and `statistics` of xprobe/correlator/src/lib.rs on small inputs.
use xprobe.Prelude.{ℕ, ◌≤◌, ◌≡◌, refl, none, some, [], ◌∷◌, arith, length, All}
use xprobe.Rust.Ord.{nat_ord}
use xprobe.Correlator.Pairs.{correlation_key, key_ord, key_code}
use xprobe.Correlator.Accounting.{Accounted, Decided}
use xprobe.Correlator.Statistics.{Float, statistics}
use xprobe.Correlator.Statistics.Summary.{Summarizes, statistics-Summarizes}
use xprobe.Correlator.FirstAfter.{correlate_first_after}
use xprobe.Correlator.FirstAfter.Accounting.{correlate_first_after-Decided}
use xprobe.Correlator.FirstAfter.Matching.{IsCausal, IsU64Stamped, correlate_first_after-IsCausal}
use xprobe.Correlator.FirstAfter.Optimal.{
  Plan, stop, skip_start, skip_end, pair_up, correlate_first_after_optimal,
}
use xprobe.Correlator.Nearest.{Available, select_nearest, correlate_nearest}
use xprobe.Correlator.Nearest.Selection.{Selected, select_nearest-Selected}
use xprobe.Correlator.Nearest.Accounting.{Promises, IsDistance, correlate_nearest-Promises}
use xprobe.Correlator.StackNested.NonCrossing.{AllNonCrossing}
use xprobe.Correlator.StackNested.Nesting.{correlate_stack_nested-AllNonCrossing}
use xprobe.Correlator.StackNested.{correlate_stack_nested}
use xprobe.Correlator.StackNested.Accounting.{correlate_stack_nested-Decided}
use xprobe.Correlator.StackNested.Matching.{IsOnThread, correlate_stack_nested-IsOnThread}
use xprobe.Correlator.StreamOrder.{correlate_stream_order}
use xprobe.Correlator.StreamOrder.Accounting.{correlate_stream_order-Decided}
use xprobe.Correlator.StreamOrder.Matching.{IsOnStream, correlate_stream_order-IsOnStream}
use xprobe.Correlator.Exact.{correlate_exact}
use xprobe.Correlator.Exact.Accounting.{Covers, correlate_exact-Covers}
use xprobe.Correlator.Exact.Matching.{correlate_exact-IsLifecycle}
use xprobe.Correlator.Lifecycle.{correlate_lifecycle}
use xprobe.Correlator.Lifecycle.Accounting.{correlate_lifecycle-Accounted}
use xprobe.Correlator.Lifecycle.Matching.{IsLifecycle, correlate_lifecycle-IsLifecycle}
use xprobe.Correlator.Examples.{Value, end_at, two_starts, two_ends}

-- Fractions for floating point.
abbrev fraction : Float
fraction = record { F = ℕ × ℕ; of_int = λ n. (n, 1); div = λ a b. (a.0, b.0) }

statistics-Summarizes_example :
    Summarizes fraction (30 ∷ 10 ∷ 20 ∷ []) (statistics fraction (30 ∷ 10 ∷ 20 ∷ []))
statistics-Summarizes_example =
    statistics-Summarizes fraction (30 ∷ 10 ∷ 20 ∷ []) (omega arith) (omega arith)
      (omega arith, (omega arith, (omega arith, tt)))

stamped : All IsU64Stamped two_ends
stamped = (omega arith, (omega arith, tt))

first_after_two : length (correlate_first_after two_starts two_ends none).pairs ≡ 2
unfolding correlate_first_after
first_after_two = refl

one-Plan : Plan two_starts two_ends 1
one-Plan = skip_start _ (skip_end _ (pair_up _ _ (omega arith) stop))

correlate_first_after_optimal_example :
    1 ≤ length (correlate_first_after two_starts two_ends (some 2)).pairs
correlate_first_after_optimal_example =
    correlate_first_after_optimal two_starts two_ends (some 2) ((omega arith, tt), (tt, tt))
      (omega arith) one-Plan

correlate_first_after-Decided_example :
    Decided 2 2 2 (correlate_first_after two_starts two_ends (some 2))
correlate_first_after-Decided_example = correlate_first_after-Decided two_starts two_ends (some 2)

correlate_first_after-IsCausal_example :
    All IsCausal (correlate_first_after two_starts two_ends none).pairs
correlate_first_after-IsCausal_example =
    correlate_first_after-IsCausal two_starts two_ends none stamped

abbrev available : Available Value
available = (25, end_at 25 1 ∷ []) ∷ (45, end_at 45 2 ∷ []) ∷ []

select_nearest-Selected_example : Selected 30 available (select_nearest 30 available)
select_nearest-Selected_example = select_nearest-Selected 30 available ((refl, tt), (tt, tt))

correlate_nearest-Promises_example :
    Promises IsDistance 1 2 2 (correlate_nearest two_starts two_ends (some 1))
correlate_nearest-Promises_example = correlate_nearest-Promises two_starts two_ends (some 1)

correlate_stack_nested-Decided_example :
    Decided 1 2 2 (correlate_stack_nested two_starts two_ends (some 1))
correlate_stack_nested-Decided_example = correlate_stack_nested-Decided two_starts two_ends (some 1)

correlate_stack_nested-AllNonCrossing_example :
    AllNonCrossing (correlate_stack_nested two_starts two_ends none).pairs
correlate_stack_nested-AllNonCrossing_example =
    correlate_stack_nested-AllNonCrossing two_starts two_ends none

correlate_stack_nested-IsOnThread_example :
    All IsOnThread (correlate_stack_nested two_starts two_ends none).pairs
correlate_stack_nested-IsOnThread_example =
    correlate_stack_nested-IsOnThread two_starts two_ends none stamped

correlate_stream_order-Decided_example :
    Decided 1 2 2 (correlate_stream_order two_starts two_ends (some 1))
correlate_stream_order-Decided_example =
    correlate_stream_order-Decided two_starts two_ends (some 1) (omega arith)

correlate_stream_order-IsOnStream_example :
    All IsOnStream (correlate_stream_order two_starts two_ends none).pairs
correlate_stream_order-IsOnStream_example =
    correlate_stream_order-IsOnStream two_starts two_ends none stamped

correlate_exact-Covers_example :
    Covers (some 1) two_starts two_ends (correlate_exact two_starts two_ends (some 1))
correlate_exact-Covers_example = correlate_exact-Covers two_starts two_ends (some 1)

correlate_exact-IsLifecycle_example :
    All (IsLifecycle correlation_key) (correlate_exact two_starts two_ends none).pairs
correlate_exact-IsLifecycle_example = correlate_exact-IsLifecycle two_starts two_ends none

exact_two : length (correlate_exact two_starts two_ends none).pairs ≡ 2
unfolding correlate_exact key_code
exact_two = refl

correlate_lifecycle-Accounted_example :
    Accounted 1 2 2 (correlate_lifecycle correlation_key two_starts two_ends (some 1))
correlate_lifecycle-Accounted_example =
    correlate_lifecycle-Accounted correlation_key two_starts two_ends (some 1) (omega arith)

correlate_lifecycle-IsLifecycle_example :
    All
      (IsLifecycle correlation_key)
      (correlate_lifecycle correlation_key two_starts two_ends none).pairs
correlate_lifecycle-IsLifecycle_example =
    correlate_lifecycle-IsLifecycle correlation_key two_starts two_ends none
