-- ===== src/MachinePool/Tests/Handlers.antt =====
-- Runs of the handlers, and the theorems at these runs.

use terraform_provider_ocm.MachinePool.Builder.{
  add_security_groups, add_tags, build_pool, check_when, matches_name, scale, set_taints_and_labels,
  set_zones,
}
use terraform_provider_ocm.MachinePool.Create.{built, check_size}
use terraform_provider_ocm.Common.Attribute.{optional_int64}
use terraform_provider_ocm.MachinePool.Scaling.{get_autoscaling, set_spot_instances}
use terraform_provider_ocm.MachinePool.Zones.{validate_az_config}
use terraform_provider_ocm.MachinePool.Server.{send}
use terraform_provider_ocm.MachinePool.Populate.{populate_state}
use terraform_provider_ocm.MachinePool.State.{MachinePoolState}
use terraform_provider_ocm.Prelude.{
  pos, codes, ℕ, ◌≡◌, ◌↔◌, ◌⊎◌, inl, inr, refl, Bool, true, false, some, [], ◌∷◌, arith,
}
use terraform_provider_ocm.Common.Attribute.{Value, null, known}
use terraform_provider_ocm.Common.Response.{removed, unchanged, has_error, save}
use terraform_provider_ocm.Sdk.{Cluster, Reply, success, failure, not_found}
use terraform_provider_ocm.MachinePool.State.{MachinePool}
use terraform_provider_ocm.MachinePool.Server.{get_cluster}
use terraform_provider_ocm.Client.Logic.{Adds}
use terraform_provider_ocm.MachinePool.Requests.{AllProper, IsSent, Builds}
use terraform_provider_ocm.MachinePool.Update.{update}
use terraform_provider_ocm.MachinePool.Update.Laws.{update-AllSent}
use terraform_provider_ocm.MachinePool.Update.Immutable.{
  IsKept, update-refuses, update-lost_cluster,
}
use terraform_provider_ocm.MachinePool.Create.{
  create, do_create, await_cluster, create_in, create_new,
}
use terraform_provider_ocm.MachinePool.Create.Laws.{create-AllProper}
use terraform_provider_ocm.MachinePool.Create.Silent.{create-silent}
use terraform_provider_ocm.MachinePool.Delete.{delete}
use terraform_provider_ocm.MachinePool.Delete.Laws.{delete-removes_iff}
use terraform_provider_ocm.MachinePool.Read.{read, import_state}
use terraform_provider_ocm.MachinePool.Read.Laws.{read-removes_iff}
use terraform_provider_ocm.MachinePool.Read.Import.{import_state-joined}
use terraform_provider_ocm.MachinePool.Tests.{
  cluster, pool, env, env_without_cluster, state, plan, other_type, new_plan,
}
use terraform_provider_ocm.MachinePool.Tests.Planning.{is_empty_range-SeesFields}

builds : Builds env
builds b p e = ground arith

creates : has_error (create env new_plan []).0.diagnostics ≡ false
unfolding create do_create await_cluster create_in create_new matches_name check_size optional_int64
    build_pool set_spot_instances validate_az_config add_security_groups add_tags scale
    get_autoscaling check_when built send populate_state set_taints_and_labels set_zones
creates = refl

create-AllProper_example : AllProper (create env new_plan []).1
create-AllProper_example = create-AllProper env is_empty_range-SeesFields builds new_plan [] tt

update-AllSent_example : Adds (IsSent state plan) [] (update env state plan []).1
update-AllSent_example = update-AllSent env is_empty_range-SeesFields builds state plan []

plan-IsKept : IsKept state plan
plan-IsKept = record {
  cluster = inr refl;
  name = inr refl;
  machine_type = inr refl;
  use_spot_instances = inr refl;
  max_spot_price = inr refl;
  multi_availability_zone = inr refl;
  availability_zone = inr refl;
  subnet_id = inr refl;
  disk_size = inr refl;
  security_groups = inr refl;
  aws_tags = inr refl;
}

update-lost_cluster_example :
    update env_without_cluster state plan [] ≡ (save state, get_cluster "c1" ∷ [])
update-lost_cluster_example = update-lost_cluster env_without_cluster state plan [] plan-IsKept refl

other_type_is_not-IsKept : ¬ IsKept state other_type
other_type_is_not-IsKept kept = elim kept.machine_type [ inl e ↦ cc | inr e ↦ cc ]

update-refuses_example :
    (has_error (update env state other_type []).0.diagnostics ≡ true)
    × ((update env state other_type []).0.state ≡ unchanged)
    × ((update env state other_type []).1 ≡ [])
update-refuses_example = update-refuses env state other_type [] other_type_is_not-IsKept

read-removes_iff_example : ((read env state []).0.state ≡ removed) ↔ (
    ((c : Cluster) × (◌≡◌ {A = Reply Cluster} (success cluster) (success c)))
    × (◌≡◌ {A = Reply MachinePool} (success pool) (failure not_found)))
read-removes_iff_example = read-removes_iff env state []

import_state-joined_example : import_state "c1,workers" ≡ some ("c1", "workers")
import_state-joined_example =
    import_state-joined "c1" "workers" (ground arith) (ground arith) (λ e. cc) (λ e. cc)

delete-removes_iff_example :
    (((delete env state []).0.state ≡ removed) ↔ (
      (◌≡◌ {A = Reply (Unit {0})} (failure 500) (success tt))
      ⊎ (◌≡◌ {A = Value Bool} null (known true))
      ⊎ (◌≡◌ {A = Reply ℕ} (success 2) (success 1))))
    × (((delete env state []).0.state ≡ removed)
        ↔ (has_error (delete env state []).0.diagnostics ≡ false))
delete-removes_iff_example = delete-removes_iff env state []

named_properly : matches_name (codes "workers") ≡ true
unfolding matches_name
named_properly = refl

abbrev sized_plan : MachinePoolState
sized_plan = record new_plan { disk_size = known (pos 300) }

create-silent_example :
    create env_without_cluster sized_plan []
    ≡ (record { diagnostics = []; state = unchanged }, get_cluster "c1" ∷ [])
create-silent_example =
    create-silent env_without_cluster sized_plan [] cluster (pos 300) not_found named_properly refl
      refl refl refl
