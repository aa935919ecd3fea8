-- ===== src/HcpMachinePool/Update/Body.antt =====
-- The body of the patch that an update sends.
use terraform_provider_ocm.Prelude.{
  String, Bool, true, false, ◌≡◌, inl, inr, Option, none, some, List, OnOk-anything, arith, refl,
}
use terraform_provider_ocm.Common.Attribute.{has_value, value_string, TfList}
use terraform_provider_ocm.Common.Patch.{should_patch_map, should_patch_list}
use terraform_provider_ocm.Handler.Logic.{
  OnOk-ok_or_fail, Ensures, pure-Ensures, lift-Ensures, >>=-Ensures, >>-Ensures, fail_when-Ensures,
}
use terraform_provider_ocm.MachinePool.Update.{not_exactly_one}
use terraform_provider_ocm.HcpMachinePool.State.{
  AutoScaling, AwsNodePool, HcpMachinePoolState, NodePool, new_node_pool,
}
use terraform_provider_ocm.HcpMachinePool.Scaling.{set_replicas}
use terraform_provider_ocm.HcpMachinePool.Scaling.Laws.{
  SeesFields, IsScaled, get_autoscaling-IsScaled,
}
use terraform_provider_ocm.HcpMachinePool.Requests.{IsPatchOf}
use terraform_provider_ocm.HcpMachinePool.Server.{History, Env}
use terraform_provider_ocm.HcpMachinePool.Update.{
  set_instance_type, patch_sets, set_kubelet_configs, add_tuning_configs, with_tuning_configs,
  scale, start_body, update_body,
}

-- The scaling is left alone.
abbrev KeepsScale : NodePool → NodePool → Type 0
KeepsScale b b' = (b'.id ≡ b.id) × (b'.autoscaling ≡ b.autoscaling) × (b'.replicas ≡ b.replicas)

keep_patch : (pid : String) (b b' : NodePool) → KeepsScale b b' → IsPatchOf pid b → IsPatchOf pid b'
keep_patch pid b b' (i, a, r) patch = rw (i, a, r) patch

start_body-Fresh :
    (state plan : HcpMachinePoolState)
    → KeepsScale (new_node_pool (value_string state.id)) (start_body state plan)
unfolding start_body
start_body-Fresh state plan = set_instance_type-keeps state.aws_node_pool plan.aws_node_pool _
  where
    set_instance_type-keeps :
        (a b : Option AwsNodePool) (builder : NodePool)
        → KeepsScale builder (set_instance_type a b builder)
    set_instance_type-keeps none b builder = (refl, refl, refl)
    set_instance_type-keeps (some a) none builder = (refl, refl, refl)
    set_instance_type-keeps (some a) (some b) builder = (refl, refl, refl)

set_kubelet_configs-keeps :
    (state plan : HcpMachinePoolState) (b : NodePool)
    → KeepsScale b (set_kubelet_configs state plan b)
unfolding set_kubelet_configs
set_kubelet_configs-keeps state plan b = ground arith

patches-keep :
    (state plan : HcpMachinePoolState) (b : NodePool) → KeepsScale b (patch_sets state plan b)
unfolding patch_sets should_patch_map
patches-keep state plan b = ground arith

with_tuning_configs-keeps :
    (configs : Option (List String)) (b : NodePool) → KeepsScale b (with_tuning_configs configs b)
with_tuning_configs-keeps none b = (refl, refl, refl)
with_tuning_configs-keeps (some configs) b = (refl, refl, refl)

rescaled :
    (plan : HcpMachinePoolState) (scaling : AutoScaling) (pid : String) (b : NodePool)
    (enabled : Bool) (b' : NodePool)
    → KeepsScale (new_node_pool pid) b
    → IsScaled scaling (set_replicas plan b) enabled b'
    → not_exactly_one enabled (has_value plan.replicas) ≡ false
    → IsPatchOf pid b'
rescaled plan scaling pid b true b' (i, a, r) scaled once =
    let no_replicas : has_value plan.replicas ≡ false = ground arith in
    rw (scaled.ranged refl, no_replicas) (i, inl (_, _, refl, r))
rescaled plan scaling pid b false b' (i, a, r) scaled once =
    let some_replicas : has_value plan.replicas ≡ true = ground arith in
    rw (scaled.untouched refl, some_replicas) (i, inr (_, refl, a))

module _ {V : Type 0} (env : Env V) (sees : SeesFields env.is_empty) (P : History → Type 0) where
  abbrev Scaled : HcpMachinePoolState → AutoScaling → NodePool → Bool × NodePool → Type 0
  Scaled plan scaling b (enabled, b') = IsScaled scaling (set_replicas plan b) enabled b'

  scale-IsPatchOf :
      (plan : HcpMachinePoolState) (pid : String) (b : NodePool) (scaling : Option AutoScaling)
      → KeepsScale (new_node_pool pid) b
      → Ensures P (scale env plan b scaling) (IsPatchOf pid)
  unfolding scale
  scale-IsPatchOf plan pid b none fresh = λ h p. (p, tt)
  scale-IsPatchOf plan pid b (some scaling) fresh =
      >>=-Ensures P (Scaled plan scaling b) (IsPatchOf pid) _ _
        (lift-Ensures P (Scaled plan scaling b) _ (
          OnOk-ok_or_fail (Scaled plan scaling b) _ _ _
            (get_autoscaling-IsScaled env.is_empty scaling _ sees)))
        (λ r scaled.
          >>-Ensures P (not_exactly_one r.0 (has_value plan.replicas) ≡ false) (IsPatchOf pid) _ _
            (fail_when-Ensures P (not_exactly_one r.0 (has_value plan.replicas)) _ _)
            (λ once.
              pure-Ensures P (IsPatchOf pid) r.1
                (rescaled plan scaling pid b r.0 r.1 fresh scaled once)))

  add_tuning_configs-IsPatchOf :
      (pid : String) (patch : TfList × Bool) (b : NodePool)
      → IsPatchOf pid b
      → Ensures P (add_tuning_configs env patch b) (IsPatchOf pid)
  unfolding add_tuning_configs
  add_tuning_configs-IsPatchOf pid (patch, false) b is_patch = λ h p. (p, is_patch)
  add_tuning_configs-IsPatchOf pid (patch, true) b is_patch =
      >>=-Ensures P (λ (r : Option (List String)). Unit {0}) (IsPatchOf pid) _ _
        (lift-Ensures P (λ (r : Option (List String)). Unit {0}) _ (OnOk-anything _))
        (λ configs u. pure-Ensures P (IsPatchOf pid) (with_tuning_configs configs b) (
          keep_patch pid b (with_tuning_configs configs b) (with_tuning_configs-keeps configs b)
            is_patch))

  pub update_body-IsPatchOf :
      (state plan : HcpMachinePoolState)
      → Ensures P (update_body env state plan) (IsPatchOf (value_string state.id))
  unfolding update_body
  update_body-IsPatchOf state plan =
      let pid = value_string state.id in
      >>=-Ensures P (IsPatchOf pid) (IsPatchOf pid) _ _
        (scale-IsPatchOf plan pid (start_body state plan) plan.auto_scaling
          (start_body-Fresh state plan))
        (λ b is_patch.
          >>=-Ensures P (IsPatchOf pid) (IsPatchOf pid) _ _
            (add_tuning_configs-IsPatchOf pid
              (should_patch_list state.tuning_configs plan.tuning_configs) (patch_sets state plan b)
              (keep_patch pid b (patch_sets state plan b) (patches-keep state plan b) is_patch))
            (λ tuned good. pure-Ensures P (IsPatchOf pid) (set_kubelet_configs state plan tuned) (
              keep_patch pid tuned (set_kubelet_configs state plan tuned)
                (set_kubelet_configs-keeps state plan tuned) good)))
