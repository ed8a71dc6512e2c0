-- ===== src/Correlator/Examples/Measuring.antt =====
-- `measure` of xprobe/correlator/src/lib.rs on the kernels of the examples.
use xprobe.Prelude.{ℕ, ◌≡◌, refl, false, Option, none, some, List, [], ◌∷◌, ◌++◌, map, arith, All}
use xprobe.Rust.Str.{text, text_eq}
use xprobe.Rust.Result.{Result, ok}
use xprobe.Protocol.Event.{Event, ClockDomain}
use xprobe.Protocol.Measurement.{MatchPolicy, MeasurementResult}
use xprobe.Correlator.Errors.{MeasureError}
use xprobe.Correlator.Pairs.{key_code}
use xprobe.Correlator.Policy.{LifecycleKinds}
use xprobe.Correlator.Statistics.{Float}
use xprobe.Correlator.FirstAfter.Matching.{IsU64Stamped}
use xprobe.Correlator.Checks.{MeasureOptions, common_clock_domain, apply_duration_window}
use xprobe.Correlator.Measure.{measure, correlate_selected}
use xprobe.Correlator.Measure.Selected.{Chosen, correlate_selected-Chosen}
use xprobe.Correlator.Measure.Promises.{Returns, measure-IsMeasurement}
use xprobe.Correlator.Checks.Clock.{
  Agrees, IsInGroup, common_clock_domain-Agrees, common_clock_domain-All,
}
use xprobe.Correlator.Checks.Window.{IsWindow, apply_duration_window-IsWindow}
use xprobe.Correlator.Examples.{Value, two_starts, two_ends}

abbrev fraction : Float
fraction = record { F = ℕ × ℕ; of_int = λ n. (n, 1); div = λ a b. (a.0, b.0) }

abbrev options : MeasureOptions
options = record {
  session_id = text "s";
  name = none;
  start_selector = text "cuda:kernel_start";
  end_selector = text "cuda:kernel_end:name~add";
  match_policy = MatchPolicy.exact;
  samples = some 2;
  duration = none;
  max_events = 10;
  dropped_events = 0;
}

abbrev events : List (Event Value)
events = two_ends ++ two_starts

-- A regex of the examples matches its own text.
abbrev run :
    MeasureOptions
    → List (Event Value)
    → Option (Result (MeasurementResult Value (ℕ × ℕ)) MeasureError)
unfolding measure text_eq
run o es = measure some some text_eq fraction es o

abbrev samples_of : Option (Result (MeasurementResult Value (ℕ × ℕ)) MeasureError) → List ℕ
samples_of (some (ok m)) = map (λ e. e.latency_ns) m.evidence
samples_of _ = []

measures_two : samples_of (run options events) ≡ 15 ∷ 15 ∷ []
unfolding run key_code
measures_two = refl

All-stamped : All IsU64Stamped events
All-stamped = (omega arith, (omega arith, (omega arith, (omega arith, tt))))

measure-IsMeasurement_example :
    Returns some some text_eq fraction IsU64Stamped options
      (measure some some text_eq fraction events options)
measure-IsMeasurement_example =
    measure-IsMeasurement some some text_eq fraction IsU64Stamped events options All-stamped
      (λ e h. h) (omega arith)

abbrev no_kinds : LifecycleKinds
no_kinds = record { syscall = false; nvtx = false; python_gc = false }

correlate_selected-Chosen_example :
    Chosen IsU64Stamped IsU64Stamped
      (some 1)
      2
      (correlate_selected two_starts two_ends MatchPolicy.nearest (some 1) no_kinds)
correlate_selected-Chosen_example =
    correlate_selected-Chosen IsU64Stamped IsU64Stamped two_starts two_ends (some 1) (omega arith)
      (omega arith, (omega arith, tt))
      ((omega arith, omega arith), ((omega arith, omega arith), tt)) MatchPolicy.nearest no_kinds

clock_found : common_clock_domain two_starts two_ends ≡ ok ClockDomain.cupti
unfolding common_clock_domain
clock_found = refl

common_clock_domain-Agrees_example : Agrees (two_starts ++ two_ends) ClockDomain.cupti
common_clock_domain-Agrees_example =
    common_clock_domain-Agrees two_starts two_ends ClockDomain.cupti clock_found

in_group : All (IsInGroup ClockDomain.cupti) (two_starts ++ two_ends)
in_group = (refl, (refl, (refl, (refl, tt))))

common_clock_domain-All_example :
    (found : ClockDomain) × (common_clock_domain two_starts two_ends ≡ ok found)
common_clock_domain-All_example =
    common_clock_domain-All two_starts two_ends ClockDomain.cupti (omega arith) in_group

apply_duration_window-IsWindow_example :
    (kept : List (Event Value) × List (Event Value)) × (apply_duration_window two_starts two_ends
        (some 20)
      ≡ ok kept)
    × IsWindow 20 two_starts two_ends kept.0 kept.1
apply_duration_window-IsWindow_example =
    apply_duration_window-IsWindow two_starts two_ends 20 ((omega arith, tt), (tt, tt))
      ((omega arith, tt), (tt, tt)) (omega arith) (omega arith)
      (omega arith, (omega arith, (omega arith, (omega arith, tt))))
