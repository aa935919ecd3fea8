-- ===== src/HcpMachinePool/Populate/Tags.antt =====
-- The tags of a node pool in the state.
use terraform_provider_ocm.Prelude.{
  String, false, ◌≡◌, ◌⊎◌, ◌||◌, refl, inl, inr, Option, none, some, [], ◌∷◌, map, if◌then◌else◌,
  ok, Succeeds, Succeeds->>=, Dict, Bool-cases,
}
use terraform_provider_ocm.Common.Attribute.{
  null, unknown, known, has_value, is_null, is_unknown, TfMap,
}
use terraform_provider_ocm.Common.Framework.{Framework, IsStandard, known_entry, optional_map}
use terraform_provider_ocm.Sdk.{Cluster}
use terraform_provider_ocm.MachinePool.Populate.{is_empty_dict, cluster_tags_of}
use terraform_provider_ocm.MachinePool.Populate.Kept.{map_converts}
use terraform_provider_ocm.HcpMachinePool.Populate.{
  filter_cluster_tags_not_present_in_np_input, tags_or_keep, populate_tags,
}

-- Tags that Terraform has read: none, or texts.
abbrev pub TextTags : TfMap → Type 0
TextTags tags = (has_value tags ≡ false) ⊎ ((m : Dict String) × (tags ≡ known (map known_entry m)))

module _ (fw : Framework) (standard : IsStandard fw) where
  optional_map-Succeeds :
      (tags : TfMap)
      → TextTags tags
      → (own : Option (Dict String)) × (optional_map fw tags ≡ ok own)
  unfolding optional_map
  optional_map-Succeeds tags (inl empty) = (none, rw empty refl)
  optional_map-Succeeds tags (inr (m, texts)) = (some m, rw (texts, standard.map_as_known m) refl)

  filter-Succeeds :
      (tags : TfMap) (cluster : Cluster) (aws_tags : Dict String)
      → TextTags tags
      → Succeeds
          (λ t. Unit {0})
          (filter_cluster_tags_not_present_in_np_input fw tags cluster aws_tags)
  unfolding filter_cluster_tags_not_present_in_np_input
  filter-Succeeds tags cluster aws_tags texts =
      let (own, e) = optional_map-Succeeds tags texts in
      elim (Bool-cases (is_empty_dict aws_tags || is_empty_dict (cluster_tags_of cluster))) [
        | inl empty ↦ rw empty (_, refl, tt)
        | inr both ↦ rw (both, e) (_, refl, tt)
      ]

  tags_or_keep-Succeeds :
      (old : TfMap) (tags : Dict String) → Succeeds (λ t. Unit {0}) (tags_or_keep fw old tags)
  unfolding tags_or_keep
  tags_or_keep-Succeeds old [] = (_, refl, tt)
  tags_or_keep-Succeeds old (e ∷ m) = rw (map_converts fw standard (e ∷ m)) (_, refl, tt)

  unset-TextTags :
      (old : TfMap) → TextTags old → TextTags (if is_unknown old || is_null old then null else old)
  unset-TextTags null texts = inl refl
  unset-TextTags unknown texts = inl refl
  unset-TextTags (known m) texts = texts

  pub populate_tags-Succeeds :
      (tags : Option (Dict String)) (cluster : Cluster) (old : TfMap)
      → TextTags old
      → Succeeds (λ t. Unit {0}) (populate_tags fw tags cluster old)
  unfolding populate_tags
  populate_tags-Succeeds none cluster old texts = (_, refl, tt)
  populate_tags-Succeeds (some tags) cluster old texts =
      let kept = if is_unknown old || is_null old then null else old in
      Succeeds->>= (λ t. Unit {0}) (λ t. Unit {0}) _ _
        (filter-Succeeds kept cluster tags (unset-TextTags old texts))
        (λ filtered u. tags_or_keep-Succeeds kept filtered)
