-- ===== src/MachinePool/Populate/Kept.antt =====
-- Lemmas on populateState: what each of its parts leaves alone.
use terraform_provider_ocm.Prelude.{
  String, false, not, ◌&&◌, ◌||◌, ◌≡◌, ◌⊎◌, refl, ap, ◌∙◌, inl, inr, Option, none, some, List, [],
  ◌∷◌, map, if◌then◌else◌, ok, Succeeds, Succeeds->>=, Dict, Bool-cases,
}
use terraform_provider_ocm.Common.Attribute.{null, known, has_value, is_null, is_unknown}
use terraform_provider_ocm.Common.Framework.{
  Framework, IsStandard, known_entry, string_array_to_list, convert_string_map_to_map_type,
  optional_map,
}
use terraform_provider_ocm.Sdk.{Cluster}
use terraform_provider_ocm.MachinePool.State.{
  MachinePoolState, MachinePool, AwsMachinePool, Autoscaling, Float64,
}
use terraform_provider_ocm.MachinePool.Populate.{
  or_return, populate_spot, populate_autoscaling, populate_security_groups, populate_aws,
  populate_labels, list_unless_single, populate_zones, set_tags, known_tags, populate_tags,
  is_empty_dict, cluster_tags_of, filter_cluster_tags_not_present_in_np_input, is_single,
  single_or_empty,
}

-- The identifier, the name and the tags are left alone.
abbrev pub KeepsNames : MachinePoolState → MachinePoolState → Type 0
KeepsNames state s = (s.id ≡ state.id) × (s.name ≡ state.name) × (s.aws_tags ≡ state.aws_tags)

populate_spot-KeepsNames :
    (spot : Option (Option Float64)) (state : MachinePoolState)
    → KeepsNames state (populate_spot spot state)
unfolding populate_spot
populate_spot-KeepsNames none state = (refl, refl, refl)
populate_spot-KeepsNames (some price) state = (refl, refl, refl)

pub populate_autoscaling-KeepsNames :
    (autoscaling : Option Autoscaling) (state : MachinePoolState)
    → KeepsNames state (populate_autoscaling autoscaling state)
unfolding populate_autoscaling
populate_autoscaling-KeepsNames none state = (refl, refl, refl)
populate_autoscaling-KeepsNames (some range) state = (refl, refl, refl)

-- What the labels leave alone.
abbrev pub LabelsOnly : MachinePoolState → MachinePoolState → Type 0
LabelsOnly state s = s ≡ record state { labels = s.labels }

pub populate_labels-LabelsOnly :
    (fw : Framework) (labels : Option (Dict String)) (state : MachinePoolState)
    → LabelsOnly state (populate_labels fw labels state)
unfolding populate_labels
populate_labels-LabelsOnly fw none state = refl
populate_labels-LabelsOnly fw (some []) state = refl
populate_labels-LabelsOnly fw (some (e ∷ m)) state = refl

-- The tags of a state that Terraform has read: none, or texts.
abbrev pub HasTextTags : MachinePoolState → Type 0
HasTextTags state =
    (has_value state.aws_tags ≡ false)
    ⊎ ((m : Dict String) × (state.aws_tags ≡ known (map known_entry m)))

-- The state with its zones and subnets.
abbrev pub placed : MachinePool → MachinePoolState → MachinePoolState
placed object state =
    let azs = object.availability_zones in
    let subnets = object.subnets in
    record state {
      multi_availability_zone = known (not (is_single azs) && not (is_single subnets));
      availability_zone = single_or_empty azs;
      availability_zones = if is_single azs then null else known (map known azs);
      subnet_id = single_or_empty subnets;
      subnet_ids = if is_single subnets then null else known (map known subnets);
    }

module _ (fw : Framework) (standard : IsStandard fw) where
  pub list_converts :
      (xs : List String) → or_return (string_array_to_list fw xs) ≡ ok (known (map known xs))
  unfolding or_return string_array_to_list
  list_converts xs = rw (standard.list_value_known xs) refl

  pub map_converts :
      (m : Dict String)
      → or_return (convert_string_map_to_map_type fw m) ≡ ok (known (map known_entry m))
  unfolding or_return convert_string_map_to_map_type
  map_converts m = rw (standard.map_value_known m) refl

  populate_security_groups-KeepsNames :
      (groups : Option (List String)) (state : MachinePoolState)
      → Succeeds (KeepsNames state) (populate_security_groups fw groups state)
  unfolding populate_security_groups
  populate_security_groups-KeepsNames none state = (_, refl, (refl, refl, refl))
  populate_security_groups-KeepsNames (some groups) state =
      rw (list_converts groups) (_, refl, (refl, refl, refl))

  pub populate_aws-KeepsNames :
      (aws : Option AwsMachinePool) (state : MachinePoolState)
      → Succeeds (KeepsNames state) (populate_aws fw aws state)
  unfolding populate_aws populate_spot
  populate_aws-KeepsNames none state = (_, refl, (refl, refl, refl))
  populate_aws-KeepsNames (some aws) state =
      let (a, b, c) = populate_spot-KeepsNames aws.spot_market_options state in
      let (s, e, (d, f, g)) =
        populate_security_groups-KeepsNames aws.additional_security_group_ids
          (populate_spot aws.spot_market_options state) in
      (s, e, (d ∙ a, f ∙ b, g ∙ c))

  list_unless_single-eq :
      (xs : List String)
      → list_unless_single fw xs ≡ ok (if is_single xs then null else known (map known xs))
  unfolding list_unless_single is_single
  list_unless_single-eq [] = list_converts []
  list_unless_single-eq (x ∷ []) = refl
  list_unless_single-eq (x ∷ y ∷ xs) = list_converts (x ∷ y ∷ xs)

  pub populate_zones-placed :
      (object : MachinePool) (state : MachinePoolState)
      → populate_zones fw object state ≡ ok (placed object state)
  unfolding populate_zones
  populate_zones-placed object state =
      rw (list_unless_single-eq object.availability_zones, list_unless_single-eq object.subnets)
        refl

  -- Only the tags are changed.
  abbrev pub TagsOnly : MachinePoolState → MachinePoolState → Type 0
  TagsOnly state s = s ≡ record state { aws_tags = s.aws_tags }

  set_tags-TagsOnly :
      (tags : Dict String) (state : MachinePoolState)
      → Succeeds (TagsOnly state) (set_tags fw tags state)
  unfolding set_tags
  set_tags-TagsOnly [] state = (_, refl, refl)
  set_tags-TagsOnly (e ∷ m) state = rw (map_converts (e ∷ m)) (_, refl, refl)

  optional_map-Succeeds :
      (state : MachinePoolState)
      → HasTextTags state
      → (own : Option (Dict String)) × (optional_map fw state.aws_tags ≡ ok own)
  unfolding optional_map
  optional_map-Succeeds state (inl empty) = (none, rw empty refl)
  optional_map-Succeeds state (inr (m, texts)) = (some m, rw (texts, standard.map_as_known m) refl)

  known_tags-HasTextTags :
      (state : MachinePoolState)
      → HasTextTags state
      → TagsOnly state (known_tags state) × HasTextTags (known_tags state)
  unfolding known_tags
  known_tags-HasTextTags state texts =
      elim (Bool-cases (is_unknown state.aws_tags || is_null state.aws_tags)) [
        | inl unset ↦ rw unset (refl, inl refl)
        | inr given ↦ rw given (refl, texts)
      ]

  filter-Succeeds :
      (state : MachinePoolState) (cluster : Cluster) (tags : Dict String)
      → HasTextTags state
      → Succeeds (λ t. Unit {0}) (filter_cluster_tags_not_present_in_np_input fw state cluster tags)
  unfolding filter_cluster_tags_not_present_in_np_input
  filter-Succeeds state cluster tags texts =
      let (own, e) = optional_map-Succeeds state texts in
      elim (Bool-cases (is_empty_dict tags || is_empty_dict (cluster_tags_of cluster))) [
        | inl empty ↦ rw empty (_, refl, tt)
        | inr both ↦ rw (both, e) (_, refl, tt)
      ]

  pub populate_tags-TagsOnly :
      (tags : Option (Dict String)) (cluster : Cluster) (state : MachinePoolState)
      → HasTextTags state
      → Succeeds (TagsOnly state) (populate_tags fw tags cluster state)
  unfolding populate_tags
  populate_tags-TagsOnly none cluster state texts =
      (_, refl, (known_tags-HasTextTags state texts).0)
  populate_tags-TagsOnly (some tags) cluster state texts =
      let (same, known_texts) = known_tags-HasTextTags state texts in
      Succeeds->>= (λ t. Unit {0}) (TagsOnly state) _ _
        (filter-Succeeds (known_tags state) cluster tags known_texts)
        (λ filtered u.
          let (s, e, only) = set_tags-TagsOnly filtered (known_tags state) in
          (s, e, only ∙ ap {A = MachinePoolState} (λ k. record k { aws_tags = s.aws_tags }) same))
