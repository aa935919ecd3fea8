-- ===== src/Autoscaler/Validators.antt =====
-- provider/autoscaler/validators.go: what the validators report of a value.
use terraform_provider_ocm.Prelude.{
  String, Option, none, some, List, [], ◌∷◌, ◌++◌, if◌then◌else◌, ℤ, pos, ltb_ℤ,
}
use terraform_provider_ocm.Common.Attribute.{Value, null, unknown, known, value_int64}
use terraform_provider_ocm.Common.Response.{Diagnostic, error}

pub record ResourceRange : Type 0 where
  pub min : Value ℤ
  pub max : Value ℤ

unfoldable pub range_validator : ResourceRange → List Diagnostic
range_validator range =
    (if ltb_ℤ (value_int64 range.min) (pos 0)
      then error "Invalid resource range" "at least 0" ∷ []
      else [])
    ++ (if ltb_ℤ (value_int64 range.max) (value_int64 range.min)
        then error "Invalid resource range" "greater or equal to min" ∷ []
        else [])

-- `time.ParseDuration` is the parameter, in nanoseconds.
unfoldable pub positive_duration_string_validator :
    (String → Option ℤ) → Value String → List Diagnostic
positive_duration_string_validator parse null = []
positive_duration_string_validator parse unknown = []
positive_duration_string_validator parse (known s) = elim (parse s) [
  | none ↦ error "Value cannot be parsed to a duration string" "" ∷ []
  | some duration ↦ if ltb_ℤ duration (pos 0) then error "Invalid positive duration" "" ∷ [] else []
]
