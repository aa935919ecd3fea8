-- ===== src/MachinePool/Tests/Planning.antt =====
-- The theorems on plans, at plans for a new pool.
use terraform_provider_ocm.Prelude.{
  String, ◌≡◌, refl, true, false, Option, some, [], ◌∷◌, pos, Dict, ok, OnOk, Option, arith,
}
use terraform_provider_ocm.Common.Attribute.{null, known}
use terraform_provider_ocm.MachinePool.State.{MachinePoolState, Taints}
use terraform_provider_ocm.MachinePool.Zones.{validate_az_config}
use terraform_provider_ocm.MachinePool.Zones.Laws.{IsPlaced, validate_az_config-IsPlaced}
use terraform_provider_ocm.MachinePool.Scaling.Laws.{SeesFields}
use terraform_provider_ocm.MachinePool.Builder.{build_pool}
use terraform_provider_ocm.MachinePool.Builder.Laws.{IsBuilt, build_pool-IsBuilt}
use terraform_provider_ocm.MachinePool.Populate.Reflects.{Reflects}
use terraform_provider_ocm.MachinePool.Tests.{cluster, env, is_empty_range, new_plan}

pub is_empty_range-SeesFields : SeesFields is_empty_range
is_empty_range-SeesFields a n e = rw e (ground arith)

-- A plan for one zone that names none.
abbrev single_plan : MachinePoolState
single_plan = record new_plan {
  multi_availability_zone = known false;
  availability_zone = null;
  subnet_id = null;
}

abbrev placed_plan : MachinePoolState
placed_plan = record single_plan { availability_zone = known "us-east-1a" }

takes_first_zone : validate_az_config cluster single_plan ≡ ok (false, placed_plan)
unfolding validate_az_config
takes_first_zone = refl

validate_az_config-IsPlaced_example : IsPlaced cluster single_plan placed_plan false
validate_az_config-IsPlaced_example =
    validate_az_config-IsPlaced cluster single_plan placed_plan false takes_first_zone

abbrev ranged_plan : MachinePoolState
ranged_plan = record new_plan {
  replicas = null;
  autoscaling_enabled = known true;
  min_replicas = known (pos 3);
  max_replicas = known (pos 9);
}

abbrev taint : Taints
taint = record { key = known "dedicated"; value = known "gpu"; schedule_type = known "NoSchedule" }

build_pool-IsBuilt_example : OnOk (IsBuilt cluster new_plan) (build_pool env cluster new_plan)
build_pool-IsBuilt_example = build_pool-IsBuilt env is_empty_range-SeesFields cluster new_plan

abbrev own : Option (Dict String)
own = some (("team", "a") ∷ [])

abbrev tags : Dict String
tags = ("owner", "team") ∷ ("team", "a") ∷ []
