-- ===== src/Core/Usdt/Examples.antt =====
-- A test of the search for Python's probes: one note, of the probe python:gc__start.
use xprobe.Prelude.{ℕ, List, [], ◌∷◌, ◌++◌, some}
use xprobe.Rust.Str.{Text, text}
use xprobe.Rust.Result.{Result, ok}
use xprobe.Core.Inspect.Examples.{procfs}
use xprobe.Core.Resolve.Examples.{report}
use xprobe.Core.Usdt.{true, NoteFile, find_python_gc_probes}
use xprobe.Core.Usdt.Termination.{Returns, find_python_gc_probes-Returns}

abbrev address : List ℕ
address = 0 ∷ 16 ∷ 0 ∷ 0 ∷ 0 ∷ 0 ∷ 0 ∷ 0 ∷ []

abbrev note : List ℕ
note =
    8 ∷ 0 ∷ 0 ∷ 0 ∷ 43 ∷ 0 ∷ 0 ∷ 0 ∷ 3 ∷ 0 ∷ 0 ∷ 0 ∷ []
    ++ text "stapsdt"
    ++ 0 ∷ []
    ++ address
    ++ address
    ++ address
    ++ text "python"
    ++ 0 ∷ text "gc__start"
    ++ 0 ∷ 0 ∷ 0 ∷ []

abbrev binary : List ℕ → Result NoteFile Text
binary bytes = ok (record { section = some (ok note); little_endian = true; is_64 = true })

abbrev no_text : List ℕ → Text
no_text bytes = []

find_python_gc_probes-Returns_example : Returns (find_python_gc_probes binary no_text procfs report)
find_python_gc_probes-Returns_example = find_python_gc_probes-Returns binary no_text procfs report
