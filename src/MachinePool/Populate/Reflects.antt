-- ===== src/MachinePool/Populate/Reflects.antt =====
-- populateState of provider/machinepool/classic/machine_pool_resource.go as a whole: what a read of
-- a pool has put into the state.
use terraform_provider_ocm.Prelude.{String, false, ◌≡◌, none, some, [], ◌∷◌, map, ℤ}
use terraform_provider_ocm.Common.Attribute.{null, known}
use terraform_provider_ocm.Common.Framework.{Framework}
use terraform_provider_ocm.MachinePool.State.{MachinePoolState, MachinePool}
use terraform_provider_ocm.MachinePool.Populate.{populate_object, is_single, populate_disk_size}
use terraform_provider_ocm.MachinePool.Populate.Kept.{placed}

-- The object's fields in the state.
pub record Reflects (object : MachinePool) (s : MachinePoolState) : Type 0 where
  pub id : s.id ≡ known object.id
  pub name : s.name ≡ known object.id
  pub machine_type : (t : String) → object.instance_type ≡ some t → s.machine_type ≡ known t
  pub replicas : (n : ℤ) → object.replicas ≡ some n → s.replicas ≡ known n
  pub no_range : object.autoscaling ≡ none → (s.min_replicas ≡ null) × (s.max_replicas ≡ null)
  pub disk_size : (n : ℤ) → object.root_volume ≡ some (some (some n)) → s.disk_size ≡ known n
  pub one_zone :
      (z : String)
      → object.availability_zones ≡ z ∷ []
      → (s.availability_zone ≡ known z)
        × (s.availability_zones ≡ null)
        × (s.multi_availability_zone ≡ known false)
  pub more_zones :
      is_single object.availability_zones ≡ false
      → (s.availability_zone ≡ known "")
        × (s.availability_zones ≡ known (map known object.availability_zones))
  pub one_subnet :
      (n : String)
      → object.subnets ≡ n ∷ []
      → (s.subnet_id ≡ known n) × (s.subnet_ids ≡ null) × (s.multi_availability_zone ≡ known false)

module _ (fw : Framework) (object : MachinePool) (state : MachinePoolState) where
  -- What the object's plain fields become.
  abbrev PlainFields : MachinePoolState → Type 0
  PlainFields s =
      (s.id ≡ state.id)
      × (s.name ≡ state.name)
      × (s.aws_tags ≡ state.aws_tags)
      × ((t : String) → object.instance_type ≡ some t → s.machine_type ≡ known t)
      × ((n : ℤ) → object.replicas ≡ some n → s.replicas ≡ known n)
      × (object.autoscaling ≡ none → (s.min_replicas ≡ null) × (s.max_replicas ≡ null))

  -- The state before the tags, and the tags.
  abbrev untagged : MachinePoolState
  untagged = record (placed object (populate_object fw object state)) {
    disk_size = populate_disk_size object.root_volume;
  }
