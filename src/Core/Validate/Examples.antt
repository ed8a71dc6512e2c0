-- ===== src/Core/Validate/Examples.antt =====
-- Tests of the validation: on a target whose probes `run` of resolve.rs resolves, and of a function
-- whose calls are measured from entry to return.
use xprobe.Prelude.{◌≡◌, refl, Option, none, some}
use xprobe.Rust.Str.{Text, text}
use xprobe.Rust.Result.{Result, ok}
use xprobe.Protocol.Measurement.{MatchPolicy}
use xprobe.Protocol.Validate.{ValidationResult}
use xprobe.Core.Inspect.{report_of}
use xprobe.Core.Policy.Examples.{entry, return}
use xprobe.Core.Resolve
use xprobe.Core.Resolve.Place.{run-LiesIn}
use xprobe.Core.Resolve.Examples.{report, libraries, library, no_demangling}
use xprobe.Core.Validate.{Target, ValidateError}
use xprobe.Core.Validate.Run.{run, validation_of}
use xprobe.Core.Validate.Panics.{Userspace, run-Returns}
use xprobe.Core.Validate.Requirements.{Grants, validation_of-Grants}

abbrev target : Target (Unit {0})
target = record {
  verify_before = ok tt;
  verify_after = ok tt;
  resolve = λ is_end selector. Resolve.run no_demangling library libraries report selector;
  find_python_gc_probes = λ is_end. ok none;
}

abbrev userspace : Userspace target
userspace = record {
  kinds = λ is_end selector probe e.
      (run-LiesIn no_demangling library libraries report selector e).userspace;
}

abbrev compiles : Text → Option (Unit {0})
compiles pattern = some tt

run-Returns_example :
    (result : Result ValidationResult (ValidateError (Unit {0}))) × (run compiles target report
        (text "uprobe:/usr/lib/libcuda.so.1:+0x8:entry")
        (text "uprobe:/usr/lib/libcuda.so.1:+0x8:return")
        (text "exact")
      ≡ some result)
run-Returns_example =
    run-Returns compiles target userspace report (text "uprobe:/usr/lib/libcuda.so.1:+0x8:entry")
      (text "uprobe:/usr/lib/libcuda.so.1:+0x8:return") (text "exact")

abbrev validated :
    (result : ValidationResult) × (validation_of report entry return MatchPolicy.first_after
      ≡ some result)
unfolding validation_of
validated = (_, refl)

validation_of-Grants_example : Grants report entry return MatchPolicy.first_after validated.0
unfolding validated report_of
validation_of-Grants_example =
    validation_of-Grants report entry return MatchPolicy.first_after validated.0 validated.1 refl
