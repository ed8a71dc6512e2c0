-- ===== src/Core/CpuAnalysis/Examples.antt =====
-- Tests of the folding of stacks and of the counters on three samples.
use xprobe.Prelude.{length, true, ℕ, ◌≡◌, refl, ◌∷◌, [], List, arith}
use xprobe.Protocol.CpuSampling.{CpuStackGroup, PythonSymbolizationStatus}
use xprobe.Core.CpuAnalysis.Errors.{RawCpuSample}
use xprobe.Core.CpuAnalysis.Stacks.{aggregate_raw_stacks}
use xprobe.Core.CpuAnalysis.Stacks.Heaviest.{Folds, aggregate_raw_stacks-Folds}
use xprobe.Core.CpuAnalysis.Symbols.{unresolved_frame, python_frame}
use xprobe.Core.CpuAnalysis.Analyze.{summarize_symbolization}
use xprobe.Core.CpuAnalysis.Summary.{Accounts, summarize_symbolization-Accounts, frames_of}

abbrev sample_of : List ℕ → RawCpuSample
sample_of addresses = record { thread_id = 42; addresses = addresses }

-- The second stack is the heavier one, and only one group fits.
abbrev samples : List RawCpuSample
samples = sample_of (5 ∷ 6 ∷ []) ∷ sample_of (7 ∷ []) ∷ sample_of (7 ∷ []) ∷ []

folds : aggregate_raw_stacks samples 1 ≡ ((7 ∷ [], 2) ∷ [], true)
unfolding aggregate_raw_stacks
folds = refl

aggregate_raw_stacks-Folds_example : Folds samples 1 (aggregate_raw_stacks samples 1)
aggregate_raw_stacks-Folds_example = aggregate_raw_stacks-Folds samples 1 (omega arith)

-- A Python frame and two frames without a symbol.
abbrev groups : List (CpuStackGroup ℕ)
groups =
    record {
      frames =
          unresolved_frame 5 ∷ python_frame 6 (record { start = 4; end = 9; name = 102 ∷ [] }) ∷ [];
      samples = 1;
      proportion = 1;
    }
    ∷ record { frames = unresolved_frame 7 ∷ []; samples = 2; proportion = 2 }
    ∷ []

few : length (frames_of groups) ≡ 3
unfolding frames_of
few = refl

summarize_symbolization-Accounts_example :
    Accounts
      (frames_of groups)
      PythonSymbolizationStatus.active
      (summarize_symbolization groups PythonSymbolizationStatus.active)
summarize_symbolization-Accounts_example =
    summarize_symbolization-Accounts groups PythonSymbolizationStatus.active (omega (arith, few))
