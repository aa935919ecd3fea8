-- ===== src/Common/Framework.antt =====
-- Conversions of provider/common/tfconversions.go that call the plugin framework. The framework is
-- a parameter; `IsStandard` states what it documents of its own conversions.
use terraform_provider_ocm.Prelude.{
  String, Bool, false, not, ◌≡◌, Option, none, some, List, map, if◌then◌else◌, Dict, Result, ok,
  err,
}
use terraform_provider_ocm.Common.Attribute.{
  Value, known, has_value, TfList, TfMap, list_elements, map_elements,
}

pub record Framework : Type 0 where
  -- `ElementsAs` into `[]string` and `map[string]string`; `none` is a diagnostic with an error.
  pub list_elements_as : List (Value String) → Option (List String)
  pub map_elements_as : Dict (Value String) → Option (Dict String)
  -- `types.ListValue` and `types.MapValue` of strings, with whether the diagnostics hold an error.
  pub list_value : List (Value String) → TfList × Bool
  pub map_value : Dict (Value String) → TfMap × Bool

abbrev pub known_entry : String × String → String × Value String
known_entry (k, v) = (k, known v)

-- Known strings convert both ways, and no error is reported.
pub record IsStandard (fw : Framework) : Type 0 where
  pub list_as_known : (xs : List String) → fw.list_elements_as (map known xs) ≡ some xs
  pub map_as_known : (m : Dict String) → fw.map_elements_as (map known_entry m) ≡ some m
  pub list_value_known :
      (xs : List String) → fw.list_value (map known xs) ≡ (known (map known xs), false)
  pub map_value_known :
      (m : Dict String) → fw.map_value (map known_entry m) ≡ (known (map known_entry m), false)

-- The one kind of error of these conversions.
pub data ConversionError : Type 0 where
  error_converting failed_to_convert : ConversionError

or_error {ℓ} : {A : Type ℓ} → Option A → Result ConversionError (Option A)
or_error none = err error_converting
or_error (some a) = ok (some a)

module _ (fw : Framework) where
  -- `nil` is `none`.
  unfoldable pub optional_map : TfMap → Result ConversionError (Option (Dict String))
  unfolding or_error
  optional_map v =
      if not (has_value v) then ok none else or_error (fw.map_elements_as (map_elements v))

  unfoldable pub string_list_to_array : TfList → Result ConversionError (Option (List String))
  unfolding or_error
  string_list_to_array v =
      if not (has_value v) then ok none else or_error (fw.list_elements_as (list_elements v))

  -- The map comes back beside the error, as a caller may ignore the error.
  unfoldable pub convert_string_map_to_map_type : Dict String → TfMap × Option ConversionError
  convert_string_map_to_map_type m =
      let (value, failed) = fw.map_value (map known_entry m) in
      (value, if failed then some failed_to_convert else none)

  unfoldable pub string_array_to_list : List String → TfList × Option ConversionError
  string_array_to_list xs =
      let (value, failed) = fw.list_value (map known xs) in
      (value, if failed then some failed_to_convert else none)
