-- ===== src/HcpMachinePool/Builder/Laws.antt =====
-- What the builder of Create carries: its name, its scaling, and the error it goes on with.
use terraform_provider_ocm.Prelude.{
  String, Bool, true, false, not, ◌&&◌, ◌||◌, ◌≡◌, ◌∙◌, Option, none, some, List, OnOk, OnOk->>=,
  OnOk->>, OnOk-anything, if◌then◌else◌, arith, refl, sym, Result, ok, is_some, ap,
}
use terraform_provider_ocm.Common.Attribute.{has_value, value_bool, value_string}
use terraform_provider_ocm.Common.Response.{Diagnostic, has_error}
use terraform_provider_ocm.Sdk.{Cluster}
use terraform_provider_ocm.Common.Framework.{string_list_to_array}
use terraform_provider_ocm.Handler.{ok_or_fail}
use terraform_provider_ocm.Handler.Logic.{OnOk-ok_or_fail}
use terraform_provider_ocm.HcpMachinePool.State.{
  AutoScaling, AwsNodePool, AwsPool, HcpMachinePoolState, NodePool,
}
use terraform_provider_ocm.HcpMachinePool.Scaling.{set_replicas}
use terraform_provider_ocm.HcpMachinePool.Scaling.Laws.{
  SeesFields, IsScaled, get_autoscaling-IsScaled,
}
use terraform_provider_ocm.HcpMachinePool.Builder.{
  set_plain, default_http_tokens, both_given, check_when, build_aws, start_builder, set_subnet,
  scale, set_tuning_configs, set_version,
}
use terraform_provider_ocm.HcpMachinePool.Server.{Env}
use terraform_provider_ocm.HcpMachinePool.Update.{with_tuning_configs}

-- Autoscaling is enabled, and a count is given.
abbrev pub gives_both : Option AutoScaling → Bool → Bool
gives_both none count = false
gives_both (some scaling) count = (has_value scaling.enabled && value_bool scaling.enabled) && count

abbrev pub HasScale : NodePool → Type 0
HasScale b = (is_some b.autoscaling || is_some b.replicas) ≡ true

abbrev pub IsFor : HcpMachinePoolState → NodePool → Type 0
IsFor plan b = b.id ≡ value_string plan.name

-- The name and the scaling are left alone.
abbrev pub Keeps : NodePool → NodePool → Type 0
Keeps b b' = (b'.id ≡ b.id) × (b'.autoscaling ≡ b.autoscaling) × (b'.replicas ≡ b.replicas)

pub set_plain-Keeps : (plan : HcpMachinePoolState) (b : NodePool) → Keeps b (set_plain plan b)
unfolding set_plain
set_plain-Keeps plan b = (refl, refl, refl)

pub set_subnet-id : (plan : HcpMachinePoolState) (b : NodePool) → (set_subnet plan b).id ≡ b.id
unfolding set_subnet
set_subnet-id plan b = ground arith

tuned-Keeps :
    (configs : Option (List String)) (b : NodePool) → Keeps b (with_tuning_configs configs b)
tuned-Keeps none b = (refl, refl, refl)
tuned-Keeps (some configs) b = (refl, refl, refl)

both_given-has_error : (a b : Bool) → has_error (both_given a b) ≡ (a && b)
unfolding both_given
both_given-has_error true true = refl
both_given-has_error true false = refl
both_given-has_error false b = refl

check_when-implies :
    (bad : Bool) (detail : String) → OnOk (λ u. bad ≡ false) (check_when bad detail)
unfolding check_when
check_when-implies true detail = tt
check_when-implies false detail = refl

abbrev pub IsReady : HcpMachinePoolState → Bool → List Diagnostic × NodePool → Type 0
IsReady plan both (ds, b) = IsFor plan b × HasScale b × (has_error ds ≡ both)

scaled-HasScale :
    (plan : HcpMachinePoolState) (scaling : AutoScaling) (b : NodePool) (enabled : Bool)
    (b' : NodePool)
    → IsScaled scaling b enabled b'
    → (not enabled && not (has_value plan.replicas)) ≡ false
    → ((set_replicas plan b').id ≡ b.id) × HasScale (set_replicas plan b')
scaled-HasScale plan scaling b true b' scaled one = rw (scaled.ranged refl) (ground arith)
scaled-HasScale plan scaling b false b' scaled one = rw (scaled.untouched refl) (ground arith)

OnOk-if :
    {A E : Type 0} (P : A → Type 0) (b : Bool) (m n : Result E A)
    → OnOk P m
    → OnOk P n
    → OnOk P (if b then m else n)
OnOk-if P true m n now other = now
OnOk-if P false m n now other = other

module _ {V : Type 0} (env : Env V) where
  pub start_builder-IsFor :
      (plan : HcpMachinePoolState) (aws : Option AwsNodePool)
      → OnOk (λ r. IsFor plan r.0) (start_builder env plan aws)
  unfolding start_builder
  start_builder-IsFor plan none = refl
  start_builder-IsFor plan (some aws) =
      OnOk->>= (λ (b : AwsPool). Unit {0}) _ (build_aws env (default_http_tokens aws)) _
        (OnOk-anything _) (λ built u. refl)

  pub set_tuning_configs-Keeps :
      (plan : HcpMachinePoolState) (b : NodePool) → OnOk (Keeps b) (set_tuning_configs env plan b)
  unfolding set_tuning_configs
  set_tuning_configs-Keeps plan b =
      OnOk-if (Keeps b) (has_value plan.tuning_configs) _ (ok b)
        (OnOk->>= (λ c. Unit {0}) (Keeps b)
          (ok_or_fail (string_list_to_array env.framework plan.tuning_configs)
            "Cannot build machine pool" "tuning configs")
          (λ configs. ok (with_tuning_configs configs b)) (OnOk-anything _)
          (λ configs u. tuned-Keeps configs b))
        (refl, refl, refl)

  pub set_version-Keeps :
      (cluster : Cluster) (plan : HcpMachinePoolState) (b : NodePool)
      → Keeps b (set_version env cluster plan b)
  unfolding set_version
  set_version-Keeps cluster plan b = ground arith

  pub scale-IsReady :
      (plan : HcpMachinePoolState) (b : NodePool) (scaling : Option AutoScaling)
      → SeesFields env.is_empty
      → IsFor plan b
      → OnOk
          (IsReady plan (gives_both scaling (has_value plan.replicas)))
          (scale env plan b scaling)
  unfolding scale
  scale-IsReady plan b none sees for_plan = tt
  scale-IsReady plan b (some scaling) sees for_plan =
      let both = gives_both (some scaling) (has_value plan.replicas) in
      OnOk->>= (λ r. IsScaled scaling b r.0 r.1) (IsReady plan both) _ _
        (OnOk-ok_or_fail (λ r. IsScaled scaling b r.0 r.1) _ _ _
          (get_autoscaling-IsScaled env.is_empty scaling b sees))
        (λ r scaled.
          OnOk->> ((not r.0 && not (has_value plan.replicas)) ≡ false) (IsReady plan both) _ _
            (check_when-implies (not r.0 && not (has_value plan.replicas)) _)
            (λ one.
              let (same, has) = scaled-HasScale plan scaling b r.0 r.1 scaled one in
              (
                same ∙ for_plan,
                has,
                both_given-has_error r.0 (has_value plan.replicas)
                    ∙ ap (λ a. a && has_value plan.replicas) (sym scaled.asked),
              )))
