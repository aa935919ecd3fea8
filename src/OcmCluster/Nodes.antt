-- ===== src/OcmCluster/Nodes.antt =====
-- CreateNodes of internal/ocm/resource/cluster.go.
pub mod Laws
use terraform_provider_ocm.Prelude.{
  ℕ, String, Bool, true, false, ◌&&◌, ◌||◌, not, Option, none, some, List, [], ◌∷◌, if◌then◌else◌,
  Result, ok, err, ◌>>=◌, ◌>>◌, fail_if, ℤ, pos, Dict, is_some, length,
}
use terraform_provider_ocm.MachinePool.State.{Autoscaling}
use terraform_provider_ocm.OcmCluster.{
  ClusterTopology, classic, hcp, ClusterNodes, ClusterBuilder, Validations, ClusterError,
  version_missing, disk_size, availability_zones_count, replicas_with_autoscaling,
  bounds_without_autoscaling, min_replicas, max_replicas,
}

-- What `CreateNodes` is called with.
pub record NodesInput : Type 0 where
  pub auto_scaling_enabled : Bool
  pub replicas : Option ℤ
  pub min_replicas : Option ℤ
  pub max_replicas : Option ℤ
  pub compute_machine_type : Option String
  pub labels : Option (Dict String)
  pub availability_zones : Option (List String)
  pub multi_az : Bool
  pub worker_disk_size : Option ℤ
  pub version : Option String

abbrev pub is_classic : ClusterTopology → Bool
is_classic classic = true
is_classic hcp = false

-- `2` where nothing is given.
abbrev pub or_two : Option ℤ → ℤ
or_two none = pos 2
or_two (some n) = n

-- The nodes before they are scaled.
unfoldable pub start_nodes : NodesInput → ClusterNodes
start_nodes input = record {
  compute_machine_type = input.compute_machine_type;
  compute_root_volume = input.worker_disk_size;
  compute_labels = input.labels;
  availability_zones = input.availability_zones;
  autoscale_compute = none;
  compute = none;
}

module _ (validations : Validations) where
  open validations use {
    node_pool_disk_ok, machine_pool_disk_ok, availability_zones_count_ok, min_replicas_ok,
    max_replicas_ok, is_empty_autoscaling, is_empty_nodes,
  }

  unfoldable pub check_disk :
      ClusterTopology → Option String → Option ℤ → Result ClusterError (Unit {0})
  check_disk topology version none = ok tt
  check_disk hcp version (some size) = fail_if (not (node_pool_disk_ok size)) disk_size
  check_disk classic none (some size) = err version_missing
  check_disk classic (some version) (some size) =
      fail_if (not (machine_pool_disk_ok version size)) disk_size

  unfoldable pub check_zones :
      ClusterTopology → Bool → Option (List String) → Result ClusterError (Unit {0})
  check_zones topology multi_az none = ok tt
  check_zones topology multi_az (some zones) =
      fail_if (is_classic topology && not (availability_zones_count_ok multi_az (length zones)))
        availability_zones_count

  -- A range that reads as empty is not set.
  unfoldable pub set_autoscaling : Autoscaling → ClusterNodes → ClusterNodes
  set_autoscaling autoscaling nodes =
      if is_empty_autoscaling autoscaling
      then nodes
      else record nodes { autoscale_compute = some autoscaling }

  unfoldable pub scale_nodes :
      ClusterTopology → NodesInput → ClusterNodes → Result ClusterError ClusterNodes
  scale_nodes topology input nodes =
      let lo = or_two input.min_replicas in
      let hi = or_two input.max_replicas in
      let count = or_two input.replicas in
      if input.auto_scaling_enabled
      then (do
        fail_if (is_some input.replicas) replicas_with_autoscaling
        fail_if (is_classic topology && not (min_replicas_ok lo input.multi_az false (pos 0)))
            min_replicas
        fail_if (is_classic topology && not (max_replicas_ok lo hi input.multi_az false (pos 0)))
            max_replicas
        ok (set_autoscaling (record { min_replicas = some lo; max_replicas = some hi }) nodes))
      else (do
        fail_if (is_some input.min_replicas || is_some input.max_replicas)
            bounds_without_autoscaling
        fail_if (is_classic topology && not (min_replicas_ok count input.multi_az false (pos 1)))
            min_replicas
        ok (record nodes { compute = some count }))

  unfoldable pub set_nodes : ClusterNodes → ClusterBuilder → ClusterBuilder
  set_nodes nodes builder =
      if is_empty_nodes nodes then builder else record builder { nodes = some nodes }

  unfoldable pub create_nodes :
      ClusterTopology → NodesInput → ClusterBuilder → Result ClusterError ClusterBuilder
  create_nodes topology input builder = do
    check_disk topology input.version input.worker_disk_size
    check_zones topology input.multi_az input.availability_zones
    nodes ← scale_nodes topology input (start_nodes input)
    ok (set_nodes nodes builder)
