-- ===== src/Core/Validate/Run.antt =====
-- `run` of xprobe/core/src/validate.rs: the whole validation. `none` is a panic.
use xprobe.Prelude.{
  Bool, true, false, if◌then◌else◌, Option, none, some, List, [], ◌∷◌, ◌++◌, is_empty, and_then,
}
use xprobe.Rust.Str.{Text, text}
use xprobe.Rust.Result.{Result, ok, err, ◌>>◌, map_err}
use xprobe.Protocol.Event.{SchemaVersion}
use xprobe.Protocol.Measurement.{MatchPolicy}
use xprobe.Protocol.Errors.{ErrorCode}
use xprobe.Protocol.Process.{ProcessReport}
use xprobe.Protocol.Validate.{ValidationResult}
use xprobe.Core.Policy.{Endpoint, check_policy, recommend_policy}
use xprobe.Core.Validate.{Target, ValidateError, resolve_endpoint, parse_match_policy}
use xprobe.Core.Validate.Checks.{
  requirements_of, check_collectability, check_capabilities, check_cupti_compatibility,
  check_selector_breadth,
}

-- The codes of all issues, in the order of the checks.
unfoldable pub issues_of :
    ProcessReport → (start end : Endpoint) → (policy_issues : List ErrorCode) → List ErrorCode
unfolding requirements_of check_collectability check_capabilities check_cupti_compatibility
issues_of report start end policy_issues =
    let requirements = requirements_of report start.kind end.kind in
    check_collectability start
    ++ check_collectability end
    ++ (check_capabilities report start.kind end.kind requirements).0
    ++ check_cupti_compatibility report requirements
    ++ policy_issues

unfoldable warnings_of : ProcessReport → (start end : Endpoint) → (heuristic : Bool) → List Text
unfolding requirements_of check_capabilities check_selector_breadth
warnings_of report start end heuristic =
    (check_capabilities report start.kind end.kind (requirements_of report start.kind end.kind)).1
    ++ (if heuristic then text "HEURISTIC_CORRELATION" ∷ [] else [])
    ++ check_selector_breadth start
    ++ check_selector_breadth end

-- The result for two endpoints.
unfoldable pub validation_of :
    ProcessReport → (start end : Endpoint) → MatchPolicy → Option ValidationResult
unfolding check_policy recommend_policy requirements_of issues_of warnings_of
validation_of report start end match_policy =
    and_then (check_policy start end match_policy) λ (checked : List ErrorCode × Bool).
      and_then (recommend_policy start end) λ recommendation.
        let issues = issues_of report start end checked.0 in
        some (record {
          schema_version = SchemaVersion.v2;
          ok = true;
          valid = is_empty issues;
          target = report.target;
          start = start.public;
          end = end.public;
          match_policy = match_policy;
          policy_recommendation = recommendation;
          requirements = requirements_of report start.kind end.kind;
          issues = issues;
          warnings = warnings_of report start end checked.1;
        })

-- `?` on a result that may have panicked before.
module _ {ℓ κ} {A B : Type ℓ} {E : Type κ} where
  abbrev pub try_next : Option (Result A E) → (A → Option (Result B E)) → Option (Result B E)
  try_next none f = none
  try_next (some (err e)) f = some (err e)
  try_next (some (ok a)) f = f a

module _ {D R : Type 0} (regex_new : Text → Option R) where
  unfoldable pub run :
      Target D
      → ProcessReport
      → (start_selector end_selector match_policy : Text)
      → Option (Result ValidationResult (ValidateError D))
  unfolding resolve_endpoint parse_match_policy validation_of
  run target report start_selector end_selector match_policy =
      elim (map_err ValidateError.inspect target.verify_before) [
        | err error ↦ some (err error)
        | ok _ ↦ try_next (resolve_endpoint regex_new target false start_selector) λ start.
            try_next (resolve_endpoint regex_new target true end_selector) λ end.
              elim (parse_match_policy match_policy) [
                | err error ↦ some (err error)
                | ok policy ↦
                    and_then (validation_of report start end policy) λ result.
                      some (map_err ValidateError.inspect target.verify_after >> ok result)
              ]
      ]
