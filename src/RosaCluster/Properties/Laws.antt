-- ===== src/RosaCluster/Properties/Laws.antt =====
-- When the properties of a cluster are patched, and with what.
use terraform_provider_ocm.Prelude.{
  String, Bool, true, false, not, ◌&&◌, ◌||◌, ◌≡◌, ◌↔◌, refl, sym, ◌∙◌, inl, inr, Option, none,
  some, [], ◌∷◌, map, Result, if◌then◌else◌, ok, Dict, lookup, contains_key, lookup-erase, eq_iff,
  arith, Option-cases,
}
use terraform_provider_ocm.Common.Attribute.{Value, known, value_string, map_elements}
use terraform_provider_ocm.Common.Framework.{
  Framework, IsStandard, known_entry, optional_map, ConversionError,
}
use terraform_provider_ocm.Common.Patch.{should_patch_map, map_eq}
use terraform_provider_ocm.RosaCluster.Properties.Maps.{
  Distinct, Includes, first-found, SameMap, included-SameMap, SameMap-length,
}
use terraform_provider_ocm.RosaCluster.Properties.{
  PropertiesState, creator_arn, extracted_defaults, has_value_at, has_defaults, insert,
  with_defaults, check_creator, validate_elements, validate_patch_properties,
  should_patch_properties, set_properties, patch_properties,
}

-- What the state has under a key that the user did not set.
abbrev pub default_at : PropertiesState → String → Option String
default_at state k =
    if contains_key k (map_elements state.properties)
    then none
    else elim (lookup k (map_elements state.ocm_properties)) [
      | none ↦ none
      | some v ↦ some (value_string v)
    ]

lookup-extracted_defaults :
    (own m : Dict (Value String)) (k : String)
    → lookup k (extracted_defaults own m) ≡ (
        if contains_key k own
        then none
        else elim (lookup k m) [ none ↦ none | some v ↦ some (value_string v) ])
unfolding extracted_defaults lookup
lookup-extracted_defaults own [] k = ground arith
lookup-extracted_defaults own ((j, v) ∷ m) k =
    ground (arith, eq_iff j k, lookup-extracted_defaults own m k)

extracted_defaults-Distinct :
    (own m : Dict (Value String)) → Distinct m → Distinct (extracted_defaults own m)
unfolding extracted_defaults
extracted_defaults-Distinct own [] distinct = tt
extracted_defaults-Distinct own ((j, v) ∷ m) (fresh, distinct) =
    ground (arith, lookup-extracted_defaults own m j, extracted_defaults-Distinct own m distinct)

has_value_at_iff :
    (m : Dict String) (k v : String) → (has_value_at m k v ≡ true) ↔ (lookup k m ≡ some v)
unfolding has_value_at
has_value_at_iff m k v = elim (Option-cases (lookup k m)) [
  | inl missing ↦ rw missing ((λ e. cc), (λ e. cc))
  | inr (w, found) ↦ rw found (ground (arith, eq_iff w v))
]

has_defaults-Includes :
    (extracted ocm : Dict String) → has_defaults extracted ocm ≡ true → Includes ocm extracted
unfolding has_defaults lookup
has_defaults-Includes extracted [] all k v found = cc
has_defaults-Includes extracted ((j, w) ∷ m) all k v found =
    let (here, there) = both_of (has_value_at extracted j w) (has_defaults extracted m) all in
    let rest = has_defaults-Includes extracted m there k v in
    let first = (has_value_at_iff extracted j w).0 here in ground (arith, eq_iff j k)
  where
    both_of : (a b : Bool) → (a && b) ≡ true → (a ≡ true) × (b ≡ true)
    both_of true true e = (refl, refl)
    both_of true false e = cc
    both_of false b e = cc

Includes-has_defaults :
    (extracted ocm : Dict String)
    → Distinct ocm
    → Includes ocm extracted
    → has_defaults extracted ocm ≡ true
unfolding has_defaults lookup
Includes-has_defaults extracted [] distinct includes = refl
Includes-has_defaults extracted ((j, w) ∷ m) (fresh, distinct) includes =
    let here = (has_value_at_iff extracted j w).1 (includes j w (first-found j w m)) in
    let there =
      Includes-has_defaults extracted m distinct
        (λ k v found. includes k v (ground (arith, eq_iff j k))) in
    rw (here, there) refl

-- For maps with distinct keys, an update leaves the properties alone exactly when the plan's are the
-- state's, entry by entry, and what the state has beside the user's properties is the provider's own:
-- the same keys with the same values, and no others.
pub should_patch_properties-not_iff :
    (ocm : Dict String) (state plan : PropertiesState)
    → Distinct ocm
    → Distinct (map_elements state.ocm_properties)
    → (should_patch_properties ocm state plan ≡ false) ↔ (
        (map_eq (map_elements state.properties) (map_elements plan.properties) ≡ true)
        × ((k : String) → lookup k ocm ≡ default_at state k))
unfolding should_patch_properties should_patch_map
should_patch_properties-not_iff ocm state plan docm dstate =
    let own = map_elements state.properties in
    let extracted = extracted_defaults own (map_elements state.ocm_properties) in
    let dext = extracted_defaults-Distinct own (map_elements state.ocm_properties) dstate in
    let defaults = lookup-extracted_defaults own (map_elements state.ocm_properties) in
    (
      λ e.
          let (same_own, same_size, all) = all_three _ _ _ e in
          (
            same_own,
            λ k.
                included-SameMap ocm extracted docm dext (has_defaults-Includes extracted ocm all)
                  (ground (arith)) k
                ∙ defaults k,
          ),
      λ (same_own, same).
          let same_map : SameMap ocm extracted = λ k. same k ∙ sym (defaults k) in
          let size = SameMap-length ocm extracted docm dext same_map in
          let all =
            Includes-has_defaults extracted ocm docm (λ k v found. sym (same_map k) ∙ found) in
          rw (same_own, all, size) (ground arith),
    )
  where
    all_three :
        (a b c : Bool) → (not a || not b || not c) ≡ false → (a ≡ true) × (b ≡ true) × (c ≡ true)
    all_three true true true e = (refl, refl, refl)
    all_three true true false e = cc
    all_three true false c e = cc
    all_three false b c e = cc

-- The provider's own property, or the plan's.
abbrev pub sent_at : Dict String → Dict String → String → Option String
sent_at ocm m k = elim (lookup k ocm) [ none ↦ lookup k m | some v ↦ some v ]

lookup-with_defaults :
    (ocm m : Dict String) (k : String)
    → Distinct ocm
    → lookup k (with_defaults ocm m) ≡ sent_at ocm m k
unfolding with_defaults lookup
lookup-with_defaults [] m k distinct = refl
lookup-with_defaults ((j, v) ∷ ocm) m k (fresh, distinct) =
    ground
      (arith, eq_iff j k, lookup-erase j k m, lookup-with_defaults ocm (insert j v m) k distinct)

converts :
    (fw : Framework)
    → IsStandard fw
    → (m : Dict String) → optional_map fw (known (map known_entry m)) ≡ ok (some m)
unfolding optional_map
converts fw standard m = rw (standard.map_as_known m) refl

checked_elements :
    (m : Dict String) (state : Result ConversionError (Option (Dict String)))
    → (check_creator m state).0 ≡ some m
unfolding check_creator
checked_elements m state = elim (Option-cases (lookup creator_arn m)) [
  | inl absent ↦ rw (check_creator, absent) refl
  | inr (arn, given) ↦ rw (check_creator, given) refl
]

set_elements :
    (ocm m : Dict String) (validated : Option (Dict String) × Bool)
    → validated.0 ≡ some m
    → (set_properties ocm validated).1 ≡ some (with_defaults ocm m)
unfolding set_properties
set_elements ocm m (elements, failed) given = rw given refl

-- Where the properties have to be patched and the plan gives them as texts, an update sends the
-- plan's properties with the provider's own over them, whatever the state has: also where the plan
-- changes the creator's ARN, and also where the state's cannot be converted.
pub patch_properties-sends :
    (ocm : Dict String) (fw : Framework) (state plan : PropertiesState) (m : Dict String)
    → Distinct ocm
    → IsStandard fw
    → plan.properties ≡ known (map known_entry m)
    → should_patch_properties ocm state plan ≡ true
    → (sent : Dict String) × ((patch_properties ocm fw state plan).1 ≡ some sent)
      × ((k : String) → lookup k sent ≡ sent_at ocm m k)
unfolding patch_properties validate_patch_properties validate_elements
patch_properties-sends ocm fw state plan m distinct standard texts should =
    let converted = converts fw standard m in
    rw (should, texts, converted)
      (
        with_defaults ocm m,
        set_elements ocm m (check_creator m (optional_map fw state.properties))
            (checked_elements m (optional_map fw state.properties)),
        λ k. lookup-with_defaults ocm m k distinct,
      )
