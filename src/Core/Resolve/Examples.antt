-- ===== src/Core/Resolve/Examples.antt =====
-- Tests of the resolution of a probe in a mapped library, on the procfs of the inspection.
use xprobe.Prelude.{ℕ, ◌≡◌, refl, arith, ◌∷◌, [], List, Option, none}
use xprobe.Rust.Str.{Text, text}
use xprobe.Rust.Result.{Result, ok}
use xprobe.Rust.Io.{Moments}
use xprobe.Protocol.Process.{ProcessReport}
use xprobe.Protocol.Validate.{ResolvedProbe, ElfObjectKind}
use xprobe.Core.Object.{ObjectKind, ObjectFile}
use xprobe.Core.Inspect.{report_of}
use xprobe.Core.Inspect.Examples.{procfs, local, seen}
use xprobe.Core.Resolve.{run, place}
use xprobe.Core.Resolve.Probe.{Boundary, ProbeTarget, parse_selector}
use xprobe.Core.Resolve.Place.{LiesIn, run-LiesIn}
use xprobe.Core.Resolve.Hints.{parse_selector-probe_at}
use xprobe.Core.CpuAnalysis.Hotspots.{probe_at}

abbrev pub report : ProcessReport
report = report_of 42 987 seen local

abbrev pub libraries : Moments
libraries n = record procfs { canonicalize = λ path. ok path }

abbrev pub no_demangling : Text → Option Text
no_demangling name = none

-- One segment from offset 0, of 4096 bytes.
abbrev pub library : List ℕ → Result ObjectFile Text
library bytes = ok (record {
  kind = ObjectKind.dynamic;
  build_id = ok none;
  segments = record { address = 0; file_offset = 0; file_size = 4096 } ∷ [];
  dynamic_symbols = [];
  symbols = [];
})

abbrev selector : Text
selector = text "uprobe:/usr/lib/libcuda.so.1:+0x8:entry"

abbrev placed : ResolvedProbe
unfolding place
placed =
    place report selector Boundary.entry (text "/usr/lib/libcuda.so.1")
      (record {
        object_kind = ElfObjectKind.shared_library;
        build_id = none;
        symbol = none;
        file_offset = 8;
      })
      (record { start = 32512; end = 32528; file_offset = 0; path = text "/usr/lib/libcuda.so.1" })

resolves : run {D = Unit {0}} no_demangling library libraries report selector ≡ ok placed
unfolding run report_of
resolves = refl

run-LiesIn_example : LiesIn report selector placed
run-LiesIn_example = run-LiesIn no_demangling library libraries report selector resolves

parse_selector-probe_at_example :
    parse_selector {D = Unit {0}} (probe_at (text "/lib/a") 4096 (text "return"))
    ≡ ok (record {
      binary = text "/lib/a";
      target = ProbeTarget.file_offset 4096;
      boundary = Boundary.return;
    })
parse_selector-probe_at_example =
    parse_selector-probe_at (Unit {0}) (text "/lib/a") 4096 Boundary.return refl (ground arith)
      (omega arith)
