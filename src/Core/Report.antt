-- ===== src/Core/Report.antt =====
-- `ratio` and `warning`, which several files of xprobe/core/src declare alike.
use xprobe.Prelude.{ℕ, []}
use xprobe.Rust.Str.{Text}
use xprobe.Protocol.Measurement.{Warning}
use xprobe.Correlator.Statistics.{Float}

module _ (f : Float) where
  open f use {F, of_int, div}

  unfoldable pub ratio : (numerator denominator : ℕ) → F
  ratio numerator denominator = div (of_int numerator) (of_int denominator)

module _ (V : Type 0) where
  abbrev pub warning : (code message : Text) → Warning V
  warning code message = record { code = code; message = message; details = [] }
