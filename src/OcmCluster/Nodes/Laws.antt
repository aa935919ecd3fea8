-- ===== src/OcmCluster/Nodes/Laws.antt =====
-- How the nodes of a new cluster are scaled.
use terraform_provider_ocm.Prelude.{
  ◌≡◌, ◌⊎◌, refl, sym, ◌∙◌, String, Bool, true, false, not, ◌&&◌, Option, none, some, List, OnOk,
  OnOk->>=, OnOk->>, OnOk-both, fail_if-implies, ℤ, pos, length, Bool-cases, inl, inr, arith,
  if◌then◌else◌,
}
use terraform_provider_ocm.MachinePool.State.{Autoscaling}
use terraform_provider_ocm.MachinePool.Scaling.Laws.{SeesFields}
use terraform_provider_ocm.OcmCluster.{
  ClusterTopology, classic, hcp, ClusterNodes, ClusterBuilder, Validations, disk_size,
  availability_zones_count,
}
use terraform_provider_ocm.OcmCluster.Nodes.{
  NodesInput, is_classic, or_two, check_disk, check_zones, set_autoscaling, scale_nodes,
  start_nodes, set_nodes, create_nodes,
}

-- What the client library documents of `Empty`: nodes with a count or a range are not empty.
abbrev pub SeesNodes : (ClusterNodes → Bool) → Type 0
SeesNodes is_empty =
    (nodes : ClusterNodes)
    → ((n : ℤ) × (nodes.compute ≡ some n))
      ⊎ ((a : Autoscaling) × (nodes.autoscale_compute ≡ some a))
    → is_empty nodes ≡ false

module _ (validations : Validations) (topology : ClusterTopology) (input : NodesInput) where
  -- A range between the given bounds, or 2 where none is given, with nothing said of a count.
  abbrev IsRanged : ClusterNodes → Type 0
  IsRanged nodes =
      (input.replicas ≡ none)
      × (nodes.autoscale_compute
          ≡ some (record {
            min_replicas = some (or_two input.min_replicas);
            max_replicas = some (or_two input.max_replicas);
          }))
      × (nodes.compute ≡ none)

  -- A count, or 2 where none is given, with nothing said of bounds.
  abbrev IsCounted : ClusterNodes → Type 0
  IsCounted nodes =
      (input.min_replicas ≡ none)
      × (input.max_replicas ≡ none)
      × (nodes.autoscale_compute ≡ none)
      × (nodes.compute ≡ some (or_two input.replicas))

  -- What the validations say of the range or the count.
  abbrev accepted : Bool
  accepted =
      let lo = or_two input.min_replicas in
      if input.auto_scaling_enabled
      then (validations.min_replicas_ok lo input.multi_az false (pos 0)
          && validations.max_replicas_ok lo (or_two input.max_replicas) input.multi_az false
              (pos 0))
      else validations.min_replicas_ok (or_two input.replicas) input.multi_az false (pos 1)

  -- What the validation of the topology says of a disk size; a classic cluster has to name its
  -- version with one.
  abbrev disk_accepted : ClusterTopology → Option String → ℤ → Bool
  disk_accepted hcp version size = validations.node_pool_disk_ok size
  disk_accepted classic none size = false
  disk_accepted classic (some version) size = validations.machine_pool_disk_ok version size

  pub record IsCreated (nodes : ClusterNodes) : Type 0 where
    pub ranged : input.auto_scaling_enabled ≡ true → IsRanged nodes
    pub counted : input.auto_scaling_enabled ≡ false → IsCounted nodes
    pub validated : topology ≡ classic → accepted ≡ true
    pub disk :
        (size : ℤ)
        → nodes.compute_root_volume ≡ some size
        → disk_accepted topology input.version size ≡ true
    pub zones :
        (zones : List String)
        → nodes.availability_zones ≡ some zones
        → topology ≡ classic
        → validations.availability_zones_count_ok input.multi_az (length zones) ≡ true

  scale_nodes-IsRanged :
      SeesFields validations.is_empty_autoscaling
      → OnOk
          (λ nodes. input.auto_scaling_enabled ≡ true → IsRanged nodes)
          (scale_nodes validations topology input (start_nodes input))
  unfolding scale_nodes start_nodes set_autoscaling
  scale_nodes-IsRanged sees =
      let lo = or_two input.min_replicas in
      let hi = or_two input.max_replicas in
      ground (arith, sees (record { min_replicas = some lo; max_replicas = some hi }) hi refl)

  scale_nodes-IsCounted :
      OnOk
        (λ nodes.
          (input.auto_scaling_enabled ≡ false → IsCounted nodes)
          × (topology ≡ classic → accepted ≡ true))
        (scale_nodes validations topology input (start_nodes input))
  unfolding scale_nodes start_nodes
  scale_nodes-IsCounted = ground arith

  scale_nodes-same :
      OnOk
        (λ nodes.
          (nodes.compute_root_volume ≡ input.worker_disk_size)
          × (nodes.availability_zones ≡ input.availability_zones))
        (scale_nodes validations topology input (start_nodes input))
  unfolding scale_nodes start_nodes set_autoscaling
  scale_nodes-same = ground arith

  check_disk-accepted :
      (topology : ClusterTopology) (version : Option String) (size : Option ℤ)
      → OnOk
          (λ u. (n : ℤ) → size ≡ some n → disk_accepted topology version n ≡ true)
          (check_disk validations topology version size)
  unfolding check_disk
  check_disk-accepted topology version none = λ n e. cc
  check_disk-accepted hcp version (some size) =
      fail_if-implies (not (validations.node_pool_disk_ok size)) disk_size
        ((n : ℤ) → some size ≡ some n → validations.node_pool_disk_ok n ≡ true)
        (λ good n e. ground arith)
  check_disk-accepted classic none (some size) = tt
  check_disk-accepted classic (some version) (some size) =
      fail_if-implies (not (validations.machine_pool_disk_ok version size)) disk_size
        ((n : ℤ) → some size ≡ some n → validations.machine_pool_disk_ok version n ≡ true)
        (λ good n e. ground arith)

  check_zones-accepted :
      (zones : Option (List String))
      → OnOk
          (λ u.
            (zs : List String)
            → zones ≡ some zs
            → topology ≡ classic
            → validations.availability_zones_count_ok input.multi_az (length zs) ≡ true)
          (check_zones validations topology input.multi_az zones)
  unfolding check_zones
  check_zones-accepted none = λ zs e c. cc
  check_zones-accepted (some zs) =
      fail_if-implies
        (is_classic topology
          && not (validations.availability_zones_count_ok input.multi_az (length zs)))
        availability_zones_count
        ((zs' : List String)
          → some zs ≡ some zs'
          → topology ≡ classic
          → validations.availability_zones_count_ok input.multi_az (length zs') ≡ true)
        (λ good zs' e c. ground arith)

  IsCreated-has_scale :
      (nodes : ClusterNodes)
      → IsCreated nodes
      → ((n : ℤ) × (nodes.compute ≡ some n))
        ⊎ ((a : Autoscaling) × (nodes.autoscale_compute ≡ some a))
  IsCreated-has_scale nodes made = elim (Bool-cases input.auto_scaling_enabled) [
    | inl enabled ↦ let (no_count, range, rest) = made.ranged enabled in inr (_, range)
    | inr disabled ↦ let (no_min, no_max, no_range, count) = made.counted disabled in inl (_, count)
  ]

  -- Nodes that are accepted are set in the cluster, and nothing else of it changes. With autoscaling
  -- enabled they have the given range (2 for a bound that is not given) and no count, and otherwise
  -- the given count (2 where none is given) and no range, and what is given for the other way is
  -- refused. On a classic cluster the validations have accepted the scaling and the number of zones;
  -- a disk size is one that the validation for the topology accepts.
  pub create_nodes-IsCreated :
      SeesFields validations.is_empty_autoscaling
      → SeesNodes validations.is_empty_nodes
      → (builder : ClusterBuilder)
      → OnOk
          (λ b.
            (nodes : ClusterNodes) × (b ≡ record builder { nodes = some nodes }) × IsCreated nodes)
          (create_nodes validations topology input builder)
  unfolding create_nodes set_nodes
  create_nodes-IsCreated sees sees_nodes builder =
      let Created : ClusterBuilder → Type 0 = λ b.
        (nodes : ClusterNodes) × (b ≡ record builder { nodes = some nodes }) × IsCreated nodes in
      let DiskOk : Type 0 =
        (n : ℤ) → input.worker_disk_size ≡ some n → disk_accepted topology input.version n ≡ true in
      let ZonesOk : Type 0 =
        (zs : List String)
        → input.availability_zones ≡ some zs
        → topology ≡ classic
        → validations.availability_zones_count_ok input.multi_az (length zs) ≡ true in
      OnOk->> DiskOk Created _ _ (check_disk-accepted topology input.version input.worker_disk_size)
        (λ disk.
          OnOk->> ZonesOk Created _ _ (check_zones-accepted input.availability_zones) (λ zones.
            OnOk->>= _ Created (scale_nodes validations topology input (start_nodes input)) _
              (OnOk-both _ _ _ (scale_nodes-IsRanged sees)
                (OnOk-both _ _ _ scale_nodes-IsCounted scale_nodes-same))
              (λ nodes (ranged, ((counted, validated), (same_disk, same_zones))).
                let is_created : IsCreated nodes = record {
                  ranged = ranged;
                  counted = counted;
                  validated = validated;
                  disk = λ n e. disk n (sym same_disk ∙ e);
                  zones = λ zs e c. zones zs (sym same_zones ∙ e) c;
                } in
                rw (sees_nodes nodes (IsCreated-has_scale nodes is_created))
                  (nodes, refl, is_created))))
