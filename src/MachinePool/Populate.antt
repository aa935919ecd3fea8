-- ===== src/MachinePool/Populate.antt =====
-- populateState of provider/machinepool/classic/machine_pool_resource.go: from the API's object to
-- the Terraform state, field by field in the source's order.
pub mod Laws
pub mod Kept
pub mod Reflects
use terraform_provider_ocm.Prelude.{
  String, Bool, true, false, not, ◌&&◌, ◌||◌, Option, none, some, List, [], ◌∷◌, map, if◌then◌else◌,
  Result, ok, err, ◌>>=◌, ◌>>◌, ℤ, Dict, lookup, contains_key, erase, is_some,
}
use terraform_provider_ocm.Common.Attribute.{
  Value, null, unknown, known, is_null, is_unknown, TfList, TfMap,
}
use terraform_provider_ocm.Common.Framework.{
  Framework, ConversionError, optional_map, convert_string_map_to_map_type, string_array_to_list,
}
use terraform_provider_ocm.Sdk.{Cluster}
use terraform_provider_ocm.MachinePool.State.{
  Float64, is_zero_float, Taints, MachinePoolState, Taint, Autoscaling, AwsMachinePool, MachinePool,
}

-- A conversion whose error the caller returns.
unfoldable pub or_return {ℓ} : {A : Type ℓ} → A × Option ConversionError → Result ConversionError A
or_return (a, none) = ok a
or_return (a, some e) = err e

-- `Some n` sets the field, `none` leaves it.
unfoldable pub set_or_keep {ℓ} : {A : Type ℓ} → Option A → Value A → Value A
set_or_keep none old = old
set_or_keep (some a) old = known a

-- The price in the options, which reads 0 where none was set.
unfoldable pub spot_price : Option Float64 → Value Float64 → Value Float64
spot_price none old = old
spot_price (some price) old = if is_zero_float price then old else known price

unfoldable pub populate_spot : Option (Option Float64) → MachinePoolState → MachinePoolState
unfolding spot_price
populate_spot none state = record state { use_spot_instances = null }
populate_spot (some price) state = record state {
  use_spot_instances = known true;
  max_spot_price = spot_price price state.max_spot_price;
}

unfoldable pub populate_autoscaling : Option Autoscaling → MachinePoolState → MachinePoolState
unfolding set_or_keep
populate_autoscaling none state = record state { max_replicas = null; min_replicas = null }
populate_autoscaling (some autoscaling) state = record state {
  autoscaling_enabled = known true;
  min_replicas = set_or_keep autoscaling.min_replicas state.min_replicas;
  max_replicas = set_or_keep autoscaling.max_replicas state.max_replicas;
}

unfoldable pub taint_state : Taint → Taints
taint_state t = record { key = known t.key; value = known t.value; schedule_type = known t.effect }

-- No taints become a nil list.
unfoldable pub taints_state : Option (List Taint) → Option (List Taints)
unfolding taint_state
taints_state none = none
taints_state (some []) = none
taints_state (some (t ∷ ts)) = some (map taint_state (t ∷ ts))

-- One zone or subnet is the pool's own; any other number is listed.
unfoldable pub single_or_empty : List String → Value String
single_or_empty [] = known ""
single_or_empty (z ∷ []) = known z
single_or_empty (y ∷ z ∷ zs) = known ""

unfoldable pub is_single : List String → Bool
is_single [] = false
is_single (z ∷ []) = true
is_single (y ∷ z ∷ zs) = false

unfoldable pub populate_disk_size : Option (Option (Option ℤ)) → Value ℤ
populate_disk_size (some (some (some size))) = known size
populate_disk_size (some (some none)) = null
populate_disk_size (some none) = null
populate_disk_size none = null

-- `_, ok := currentNpTfTags[k]`, where the map may be nil.
unfoldable pub has_key : String → Option (Dict String) → Bool
unfolding contains_key
has_key k none = false
has_key k (some m) = contains_key k m

-- `delete` of each key of the cluster's tags that the pool's own tags do not have.
unfoldable pub erase_foreign : Option (Dict String) → Dict String → Dict String → Dict String
unfolding has_key erase
erase_foreign own [] tags = tags
erase_foreign own ((k, v) ∷ cluster_tags) tags =
    erase_foreign own cluster_tags (if has_key k own then tags else erase k tags)

-- `len(awsTags) == 0`
unfoldable pub is_empty_dict : Dict String → Bool
is_empty_dict [] = true
is_empty_dict (e ∷ m) = false

-- `cluster.AWS().Tags()`, which is nil where the cluster has no AWS settings.
unfoldable pub cluster_tags_of : Cluster → Dict String
cluster_tags_of cluster = elim cluster.aws_tags [ none ↦ [] | some m ↦ m ]

-- Unknown tags become null first.
unfoldable pub known_tags : MachinePoolState → MachinePoolState
known_tags state =
    if is_unknown state.aws_tags || is_null state.aws_tags
    then record state { aws_tags = null }
    else state

-- `object.AWS().GetTags()`
unfoldable pub tags_of : MachinePool → Option (Dict String)
tags_of object = elim object.aws [ none ↦ none | some aws ↦ aws.tags ]

module _ (fw : Framework) where
  unfoldable pub filter_cluster_tags_not_present_in_np_input :
      MachinePoolState → Cluster → Dict String → Result ConversionError (Dict String)
  unfolding optional_map is_empty_dict cluster_tags_of erase_foreign
  filter_cluster_tags_not_present_in_np_input state cluster aws_tags =
      if is_empty_dict aws_tags || is_empty_dict (cluster_tags_of cluster) then ok aws_tags else do
        own ← optional_map fw state.aws_tags
        ok (erase_foreign own (cluster_tags_of cluster) aws_tags)

  unfoldable pub populate_security_groups :
      Option (List String) → MachinePoolState → Result ConversionError MachinePoolState
  unfolding or_return string_array_to_list
  populate_security_groups none state = ok (record state { additional_security_group_ids = null })
  populate_security_groups (some groups) state = do
    ids ← or_return (string_array_to_list fw groups)
    ok (record state { additional_security_group_ids = ids })

  unfoldable pub populate_aws :
      Option AwsMachinePool → MachinePoolState → Result ConversionError MachinePoolState
  unfolding populate_spot populate_security_groups
  populate_aws none state = ok (record state { additional_security_group_ids = null })
  populate_aws (some aws) state =
      populate_security_groups aws.additional_security_group_ids
        (populate_spot aws.spot_market_options state)

  -- The error of this conversion is dropped.
  unfoldable pub populate_labels : Option (Dict String) → MachinePoolState → MachinePoolState
  unfolding convert_string_map_to_map_type
  populate_labels none state = record state { labels = null }
  populate_labels (some []) state = record state { labels = null }
  populate_labels (some (e ∷ m)) state = record state {
    labels = (convert_string_map_to_map_type fw (e ∷ m)).0;
  }

  unfoldable pub list_unless_single : List String → Result ConversionError TfList
  unfolding is_single or_return string_array_to_list
  list_unless_single xs = if is_single xs then ok null else or_return (string_array_to_list fw xs)

  -- The zone, the subnet and whether the pool is over several zones.
  unfoldable pub populate_zones :
      MachinePool → MachinePoolState → Result ConversionError MachinePoolState
  unfolding single_or_empty list_unless_single
  populate_zones object state = do
    azs ← list_unless_single object.availability_zones
    subnets ← list_unless_single object.subnets
    ok (record state {
      multi_availability_zone =
          known (not (is_single object.availability_zones) && not (is_single object.subnets));
      availability_zone = single_or_empty object.availability_zones;
      availability_zones = azs;
      subnet_id = single_or_empty object.subnets;
      subnet_ids = subnets;
    })

  -- Tags that are filtered down to nothing leave the state's.
  unfoldable pub set_tags : Dict String → MachinePoolState → Result ConversionError MachinePoolState
  unfolding or_return convert_string_map_to_map_type
  set_tags [] state = ok state
  set_tags (e ∷ m) state = do
    tags ← or_return (convert_string_map_to_map_type fw (e ∷ m))
    ok (record state { aws_tags = tags })

  unfoldable pub populate_tags :
      Option (Dict String) → Cluster → MachinePoolState → Result ConversionError MachinePoolState
  unfolding filter_cluster_tags_not_present_in_np_input set_tags known_tags
  populate_tags none cluster state = ok (known_tags state)
  populate_tags (some aws_tags) cluster state = do
    filtered ← filter_cluster_tags_not_present_in_np_input (known_tags state) cluster aws_tags
    set_tags filtered (known_tags state)

  unfoldable pub populate_object : MachinePool → MachinePoolState → MachinePoolState
  unfolding populate_autoscaling set_or_keep taints_state populate_labels
  populate_object object state =
      let scaled = populate_autoscaling object.autoscaling state in
      populate_labels object.labels (record scaled {
        machine_type = set_or_keep object.instance_type scaled.machine_type;
        replicas = set_or_keep object.replicas scaled.replicas;
        taints = taints_state object.taints;
      })

  unfoldable pub populate_state :
      MachinePool → MachinePoolState → Cluster → Result ConversionError MachinePoolState
  unfolding populate_aws populate_object populate_zones populate_disk_size tags_of populate_tags
  populate_state object state cluster = do
    with_aws ←
        populate_aws object.aws (record state { id = known object.id; name = known object.id })
    placed ← populate_zones object (populate_object object with_aws)
    populate_tags (tags_of object) cluster
        (record placed { disk_size = populate_disk_size object.root_volume })
