-- ===== src/Core/CuptiCompat/Examples.antt =====
-- A test of the CUDA major on the libraries of a target.
use xprobe.Prelude.{◌≡◌, refl, ◌∷◌, [], List, some}
use xprobe.Rust.Str.{Text, text}
use xprobe.Rust.Result.{ok}
use xprobe.Core.CuptiCompat.{target_major_from_libraries}
use xprobe.Core.CuptiCompat.Major.{Observed, target_major_from_libraries-Observed}

abbrev libraries : List Text
libraries =
    text "/lib/libc.so.6" ∷ text "/lib/libcudart.so.12.4" ∷ text "/lib/libcupti.so.2024.1" ∷ []

observes : target_major_from_libraries libraries ≡ ok (some 12)
unfolding target_major_from_libraries
observes = refl

target_major_from_libraries-Observed_example : Observed libraries (some 12)
target_major_from_libraries-Observed_example =
    target_major_from_libraries-Observed libraries observes
