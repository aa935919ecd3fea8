-- ===== src/RosaCluster/Properties.antt =====
-- shouldPatchProperties of provider/clusterrosa/classic and provider/clusterrosa/hcp with the patch
-- that their Update sends, and ValidatePatchProperties of provider/clusterrosa/common/properties.go.
pub mod Maps
pub mod Laws
use terraform_provider_ocm.Prelude.{
  ℕ, String, Bool, true, false, not, ◌&&◌, ◌||◌, ◌==◌, Option, none, some, List, [], ◌∷◌, length,
  nat_eq, if◌then◌else◌, Result, ok, err, Dict, lookup, contains_key, erase,
}
use terraform_provider_ocm.Common.Attribute.{Value, value_string, TfMap, map_elements}
use terraform_provider_ocm.Common.Framework.{Framework, ConversionError, optional_map}
use terraform_provider_ocm.Common.Patch.{should_patch_map}
use terraform_provider_ocm.Common.Response.{Diagnostic, warning}

-- The attributes of a cluster's state that are read.
pub record PropertiesState : Type 0 where
  pub properties : TfMap
  pub ocm_properties : TfMap

-- `PropertyRosaCreatorArn`
abbrev pub creator_arn : String
creator_arn = "rosa_creator_arn"

-- The properties in the state that are not the user's.
unfoldable pub extracted_defaults : Dict (Value String) → Dict (Value String) → Dict String
extracted_defaults own [] = []
extracted_defaults own ((k, v) ∷ m) =
    let rest = extracted_defaults own m in
    if contains_key k own then rest else (k, value_string v) ∷ rest

unfoldable pub has_value_at : Dict String → String → String → Bool
has_value_at m k v = elim (lookup k m) [ none ↦ false | some w ↦ w == v ]

-- The loop over the provider's own properties.
unfoldable pub has_defaults : Dict String → Dict String → Bool
has_defaults extracted [] = true
has_defaults extracted ((k, v) ∷ m) = has_value_at extracted k v && has_defaults extracted m

-- `m[k] = v`
abbrev pub insert : String → String → Dict String → Dict String
insert k v m = (k, v) ∷ erase k m

unfoldable pub with_defaults : Dict String → Dict String → Dict String
with_defaults [] m = m
with_defaults ((k, v) ∷ ocm) m = with_defaults ocm (insert k v m)

-- Whether the creator's ARN of the plan is another than the state's.
unfoldable pub creator_differs : String → Result ConversionError (Option (Dict String)) → Bool
creator_differs arn (err why) = true
creator_differs arn (ok none) = false
creator_differs arn (ok (some m)) = elim (lookup creator_arn m) [
  | none ↦ false
  | some original ↦ not (arn == original)
]

-- The properties of the plan, and whether there is an error with them.
unfoldable pub check_creator :
    Dict String → Result ConversionError (Option (Dict String)) → Option (Dict String) × Bool
check_creator m state = elim (lookup creator_arn m) [
  | none ↦ (some m, false)
  | some arn ↦ (some m, creator_differs arn state)
]

unfoldable pub validate_elements :
    Result ConversionError (Option (Dict String))
    → Result ConversionError (Option (Dict String))
    → Option (Dict String) × Bool
validate_elements (err why) state = (none, true)
validate_elements (ok none) state = (none, false)
validate_elements (ok (some m)) state = check_creator m state

unfoldable pub validate_patch_properties : Framework → TfMap → TfMap → Option (Dict String) × Bool
validate_patch_properties fw state plan =
    validate_elements (optional_map fw plan) (optional_map fw state)

-- The parameter is `rosa.OCMProperties`: the version and the commit of the build.
module _ (ocm : Dict String) where
  unfoldable pub should_patch_properties : PropertiesState → PropertiesState → Bool
  should_patch_properties state plan =
      let (patch, should) = should_patch_map state.properties plan.properties in
      let extracted =
        extracted_defaults (map_elements state.properties) (map_elements state.ocm_properties) in
      should || not (nat_eq (length extracted) (length ocm)) || not (has_defaults extracted ocm)

  unfoldable pub set_properties :
      Option (Dict String) × Bool → List Diagnostic × Option (Dict String)
  set_properties (elements, failed) = (
    if failed then warning "Shouldn't patch cluster properties" "" ∷ [] else [],
    elim elements [ none ↦ none | some m ↦ some (with_defaults ocm m) ],
  )

  -- The warnings of an update, and the properties on its builder.
  unfoldable pub patch_properties :
      Framework → PropertiesState → PropertiesState → List Diagnostic × Option (Dict String)
  patch_properties fw state plan =
      if should_patch_properties state plan
      then set_properties (validate_patch_properties fw state.properties plan.properties)
      else ([], none)
