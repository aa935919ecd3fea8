-- ===== src/MachinePool/Update/Laws.antt =====
-- What an update sends.
use terraform_provider_ocm.Prelude.{
  String, Bool, true, false, ◌≡◌, inl, inr, Option, none, some, List, [], ◌∷◌, OnOk-anything,
  Option-cases, arith, refl, is_some,
}
use terraform_provider_ocm.Common.Attribute.{has_value, value_string}
use terraform_provider_ocm.Common.Patch.{should_patch_string, should_patch_int, should_patch_map}
use terraform_provider_ocm.Common.Response.{Diagnostic, save}
use terraform_provider_ocm.Sdk.{Cluster, success}
use terraform_provider_ocm.MachinePool.State.{MachinePoolState, MachinePool, new_machine_pool}
use terraform_provider_ocm.MachinePool.Scaling.Laws.{SeesFields, IsScaled, get_autoscaling-IsScaled}
use terraform_provider_ocm.MachinePool.Read.Laws.{fetch_cluster-Ensures}
use terraform_provider_ocm.MachinePool.Update.{
  validate_no_immutable_att_change, not_exactly_one, set_replicas, set_labels, set_taints,
  patch_sets, update_body, built, send_update, with_cluster, no_change_allowed, do_update, update,
}
use terraform_provider_ocm.MachinePool.Requests.{IsScaledOnce, IsPatchOf, IsSent, Builds}
use terraform_provider_ocm.MachinePool.Server.{
  Request, get_cluster, get_pool, update_pool, History, Env, pure,
}
use terraform_provider_ocm.Handler.Logic.{
  OnOk-ok_or_fail, Ensures, Any, Adds, Adds-nothing, Adds-one, pure-Ensures, lift-Ensures,
  send-Ensures, >>=-Ensures, >>-Ensures, fail_when-Ensures, body_or_fail-Ensures,
}

rescaled :
    (plan : MachinePoolState) (id : String) (enabled : Bool) (b : MachinePool)
    → IsScaled plan (set_replicas plan (new_machine_pool id)) enabled b
    → not_exactly_one enabled (has_value plan.replicas) ≡ false
    → (b.id ≡ id) × IsScaledOnce b
rescaled plan id true b scaled once =
    let no_replicas : has_value plan.replicas ≡ false = ground arith in
    rw (scaled.ranged refl, no_replicas) (refl, inl (_, _, refl, refl))
rescaled plan id false b scaled once =
    let some_replicas : has_value plan.replicas ≡ true = ground arith in
    rw (scaled.untouched refl, some_replicas) (refl, inr (_, refl, refl))

patch_sets-keeps :
    (state plan : MachinePoolState) (b : MachinePool)
    → ((patch_sets state plan b).id ≡ b.id)
      × ((patch_sets state plan b).autoscaling ≡ b.autoscaling)
      × ((patch_sets state plan b).replicas ≡ b.replicas)
unfolding patch_sets set_labels set_taints should_patch_map
patch_sets-keeps state plan b = ground arith

patch_sets-IsPatchOf :
    (state plan : MachinePoolState) (b : MachinePool)
    → IsPatchOf (value_string state.id) b
    → IsPatchOf (value_string state.id) (patch_sets state plan b)
patch_sets-IsPatchOf state plan b patch =
    let (same_id, same_range, same_count) = patch_sets-keeps state plan b in
    rw (same_id, same_range, same_count) patch

abbrev type_changes : MachinePoolState → MachinePoolState → Bool
type_changes state plan = is_some (should_patch_string state.machine_type plan.machine_type)

abbrev size_changes : MachinePoolState → MachinePoolState → Bool
size_changes state plan = is_some (should_patch_int state.disk_size plan.disk_size)

module _ (env : Env) (sees : SeesFields env.is_empty) (builds : Builds env)
    (P : History → Type 0) where
  abbrev Scaled : MachinePoolState → MachinePoolState → Bool × MachinePool → Type 0
  Scaled state plan (enabled, b) =
      IsScaled plan (set_replicas plan (new_machine_pool (value_string state.id))) enabled b

  update_body-IsPatchOf :
      (state plan : MachinePoolState)
      → Ensures P (update_body env state plan) (IsPatchOf (value_string state.id))
  unfolding update_body
  update_body-IsPatchOf state plan =
      >>-Ensures P (type_changes state plan ≡ false) (IsPatchOf (value_string state.id)) _ _
        (fail_when-Ensures P (type_changes state plan) _ _)
        (λ u.
          >>=-Ensures P (Scaled state plan) (IsPatchOf (value_string state.id)) _ _
            (lift-Ensures P (Scaled state plan) _ (
              OnOk-ok_or_fail (Scaled state plan) _ _ _
                (get_autoscaling-IsScaled env.is_empty plan _ sees)))
            (λ r scaled.
              >>-Ensures P (not_exactly_one r.0 (has_value plan.replicas) ≡ false)
                (IsPatchOf (value_string state.id)) _ _
                (fail_when-Ensures P (not_exactly_one r.0 (has_value plan.replicas)) _ _)
                (λ once.
                  >>-Ensures P (size_changes state plan ≡ false) (IsPatchOf (value_string state.id))
                    _ _ (fail_when-Ensures P (size_changes state plan) _ _)
                    (λ v.
                      pure-Ensures P (IsPatchOf (value_string state.id)) (patch_sets state plan r.1)
                        (patch_sets-IsPatchOf state plan r.1
                          (rescaled plan _ r.0 r.1 scaled once))))))

  built-IsPatchOf :
      (state : MachinePoolState) (b : MachinePool)
      → IsPatchOf (value_string state.id) b
      → Ensures P (built (env.build b)) (IsPatchOf (value_string state.id))
  unfolding built
  built-IsPatchOf state b patch = elim (Option-cases (env.build b)) [
    | inl failed ↦ rw failed (λ h p. (p, tt))
    | inr (p, e) ↦ rw (e, builds b p e) (pure-Ensures P (IsPatchOf (value_string state.id)) b patch)
  ]

  module _ (state plan : MachinePoolState)
      (keep : (r : Request) → IsSent state plan r → (h : History) → P h → P (r ∷ h)) where
    send_update-Ensures : (cluster : Cluster) → Ensures P (send_update env state plan cluster) Any
    unfolding send_update
    send_update-Ensures cluster =
        let cid = value_string state.cluster in
        let pid = value_string state.id in
        >>=-Ensures P Any Any _ _
          (send-Ensures P (get_pool cid pid) (λ h. env.server.on_get_pool h cid pid)
            (keep (get_pool cid pid) (refl, refl)))
          (λ found u.
            >>=-Ensures P (λ (a : MachinePool). found ≡ success a) Any _ _
              (body_or_fail-Ensures P found _ _)
              (λ existing e.
                >>=-Ensures P (IsPatchOf pid) Any _ _ (update_body-IsPatchOf state plan) (λ b patch.
                  >>=-Ensures P (IsPatchOf pid) Any _ _ (built-IsPatchOf state b patch)
                    (λ body proper.
                      >>=-Ensures P Any Any _ _
                        (send-Ensures P (update_pool cid pid body)
                          (λ h. env.server.on_update_pool h cid pid body)
                          (keep (update_pool cid pid body) (refl, refl, proper)))
                        (λ reply v.
                          >>=-Ensures P (λ (a : MachinePool). reply ≡ success a) Any _ _
                            (body_or_fail-Ensures P reply _ _)
                            (λ object e'. lift-Ensures P Any _ (OnOk-anything _)))))))

    with_cluster-Ensures :
        (cluster : Option Cluster) → Ensures P (with_cluster env state plan cluster) Any
    unfolding with_cluster
    with_cluster-Ensures none = pure-Ensures P Any state tt
    with_cluster-Ensures (some cluster) = send_update-Ensures cluster

    no_change_allowed-Ensures :
        (ds : List Diagnostic) → Ensures P (no_change_allowed ds) (λ u. ds ≡ [])
    unfolding no_change_allowed
    no_change_allowed-Ensures [] h p = (p, refl)
    no_change_allowed-Ensures (d ∷ ds) h p = (p, tt)

    pub do_update-Ensures : Ensures P (do_update env state plan) Any
    unfolding do_update
    do_update-Ensures =
        let ds = validate_no_immutable_att_change state plan in
        >>-Ensures P (ds ≡ []) Any _ _ (no_change_allowed-Ensures ds) (λ e.
          >>=-Ensures P Any Any _ _
            (fetch_cluster-Ensures env P plan.cluster
              (keep (get_cluster (value_string plan.cluster)) refl))
            (λ cluster u. with_cluster-Ensures cluster))

module _ (env : Env) (sees : SeesFields env.is_empty) (builds : Builds env) where
  -- Every request that an update adds to the history is one of these. It reads the plan's cluster, or
  -- the pool of the state in the state's cluster. Or it patches that pool in that cluster, and the
  -- body has the pool's identifier and either a range of replicas or a count, and never both or
  -- neither.
  pub update-AllSent :
      (state plan : MachinePoolState) (h : History)
      → Adds (IsSent state plan) h (update env state plan h).1
  unfolding update
  update-AllSent state plan h =
      let Sent : History → Type 0 = Adds (IsSent state plan) h in
      (>>=-Ensures Sent Any Any (do_update env state plan) (λ s. pure (save s))
        (do_update-Ensures env sees builds Sent state plan (Adds-one (IsSent state plan) h))
        (λ s u k p. (p, tt)) h (Adds-nothing (IsSent state plan) h)).0
