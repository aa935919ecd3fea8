-- ===== src/MachinePool/Builder/Laws.antt =====
-- What an accepted plan puts into the builder.
use terraform_provider_ocm.Prelude.{
  String, Bool, true, false, not, ◌&&◌, ◌≡◌, inl, inr, Option, none, some, [], ◌∷◌, OnOk,
  OnOk-anything, OnOk-intro, ap, ◌∙◌, if◌then◌else◌, OnOk->>=, OnOk->>, is_multiple, ℤ, arith, refl,
}
use terraform_provider_ocm.Common.Attribute.{
  known, has_value, value_string, value_int64, value_bool,
}
use terraform_provider_ocm.Sdk.{Cluster}
use terraform_provider_ocm.MachinePool.State.{MachinePoolState, AwsMachinePool, MachinePool}
use terraform_provider_ocm.MachinePool.Zones.{is_set, validate_az_config}
use terraform_provider_ocm.MachinePool.Zones.Laws.{IsPlaced, validate_az_config-IsPlaced}
use terraform_provider_ocm.MachinePool.Scaling.{set_spot_instances}
use terraform_provider_ocm.MachinePool.Scaling.Laws.{SeesFields, IsScaled, get_autoscaling-IsScaled}
use terraform_provider_ocm.MachinePool.Builder.{
  check_when, add_security_groups, add_tags, scale, build_pool, named_builder, set_zones,
  set_taints_and_labels,
}
use terraform_provider_ocm.MachinePool.Update.{not_exactly_one, set_replicas}
use terraform_provider_ocm.MachinePool.Requests.{IsScaledOnce}
use terraform_provider_ocm.MachinePool.Server.{Env}
use terraform_provider_ocm.Handler.Logic.{OnOk-ok_or_fail}

check_when-false : (bad : Bool) (detail : String) → OnOk (λ u. bad ≡ false) (check_when bad detail)
unfolding check_when
check_when-false true detail = tt
check_when-false false detail = refl

-- A builder before and after its scaling was set.
record HasScale (multi : Bool) (b b' : MachinePool) : Type 0 where
  once : IsScaledOnce b'
  thirds : (n : ℤ) → b'.replicas ≡ some n → multi ≡ true → is_multiple 3 n ≡ true
  same_id : b'.id ≡ b.id
  same_zones : b'.availability_zones ≡ b.availability_zones
  same_subnets : b'.subnets ≡ b.subnets

abbrev bad_thirds : Bool → MachinePoolState → Bool
bad_thirds multi plan =
    has_value plan.replicas && multi && not (is_multiple 3 (value_int64 plan.replicas))

abbrev ScaledFrom : MachinePoolState → MachinePool → Bool × MachinePool → Type 0
ScaledFrom plan b (enabled, b') = IsScaled plan b enabled b'

set_replicas-HasScale :
    (multi enabled : Bool) (plan : MachinePoolState) (b b' : MachinePool)
    → b.autoscaling ≡ none
    → b.replicas ≡ none
    → IsScaled plan b enabled b'
    → bad_thirds multi plan ≡ false
    → not_exactly_one enabled (has_value plan.replicas) ≡ false
    → HasScale multi b (set_replicas plan b')
set_replicas-HasScale multi true plan b b' no_range no_count scaled thirds once =
    let no_replicas : has_value plan.replicas ≡ false = ground arith in
    rw (no_replicas, scaled.ranged refl)
      (record {
        once = inl (_, _, refl, no_count);
        thirds = λ n e m. cc (no_count);
        same_id = refl;
        same_zones = refl;
        same_subnets = refl;
      })
set_replicas-HasScale multi false plan b b' no_range no_count scaled thirds once =
    let some_replicas : has_value plan.replicas ≡ true = ground arith in
    rw (some_replicas, scaled.untouched refl)
      (record {
        once = inr (_, refl, no_range);
        thirds = λ n e m. ground arith;
        same_id = refl;
        same_zones = refl;
        same_subnets = refl;
      })

module _ (env : Env) (sees : SeesFields env.is_empty) where
  scale-HasScale :
      (multi : Bool) (plan : MachinePoolState) (b : MachinePool)
      → b.autoscaling ≡ none
      → b.replicas ≡ none
      → OnOk (HasScale multi b) (scale env multi plan b)
  unfolding scale
  scale-HasScale multi plan b no_range no_count =
      OnOk->>= (ScaledFrom plan b) (HasScale multi b) _ _
        (OnOk-ok_or_fail (ScaledFrom plan b) _ _ _
          (get_autoscaling-IsScaled env.is_empty plan b sees))
        (λ r scaled.
          OnOk->> (bad_thirds multi plan ≡ false) (HasScale multi b) _ _ (check_when-false _ _)
            (λ thirds.
              OnOk->> (not_exactly_one r.0 (has_value plan.replicas) ≡ false) (HasScale multi b) _ _
                (check_when-false _ _)
                (λ once.
                  set_replicas-HasScale multi r.0 plan b r.1 no_range no_count scaled thirds once)))

-- What an accepted plan has become: the builder `b` and the plan `p` with its zones filled in.
pub record IsBuilt (cluster : Cluster) (plan : MachinePoolState)
    (r : MachinePool × MachinePoolState) : Type 0 where
  pub named : r.0.id ≡ value_string plan.name
  pub scaled : IsScaledOnce r.0
  pub thirds :
      (n : ℤ)
      → r.0.replicas ≡ some n
      → r.1.multi_availability_zone ≡ known true
      → is_multiple 3 n ≡ true
  pub placed : IsPlaced cluster plan r.1 (value_bool r.1.multi_availability_zone)
  pub zones :
      r.0.availability_zones
      ≡ (if is_set r.1.availability_zone then value_string r.1.availability_zone ∷ [] else [])
  pub subnets : r.0.subnets ≡ (if is_set r.1.subnet_id then value_string r.1.subnet_id ∷ [] else [])

abbrev PlacedFrom : Cluster → MachinePoolState → Bool × MachinePoolState → Type 0
PlacedFrom cluster plan (multi, p) = IsPlaced cluster plan p multi

-- The builder that is scaled: nothing of its scale is set yet.
abbrev zoned_builder : MachinePoolState → Option AwsMachinePool → MachinePool
zoned_builder p aws = record (set_zones p (named_builder p)) { aws = aws }

zoned_builder-unscaled :
    (p : MachinePoolState) (aws : Option AwsMachinePool)
    → ((zoned_builder p aws).autoscaling ≡ none) × ((zoned_builder p aws).replicas ≡ none)
unfolding set_zones named_builder
zoned_builder-unscaled p aws = (refl, refl)

IsBuilt-of :
    (cluster : Cluster) (plan p : MachinePoolState) (multi : Bool) (aws : Option AwsMachinePool)
    (b : MachinePool)
    → IsPlaced cluster plan p multi
    → HasScale multi (zoned_builder p aws) b
    → IsBuilt cluster plan (set_taints_and_labels p b, p)
unfolding set_taints_and_labels set_zones named_builder
IsBuilt-of cluster plan p multi aws b placed scale =
    let multi_eq : value_bool p.multi_availability_zone ≡ multi = ap value_bool placed.answers in
    record {
      named = scale.same_id ∙ ap (λ r. value_string r.name) placed.rest;
      scaled = scale.once;
      thirds = λ n e m. scale.thirds n e (ground arith);
      placed = rw multi_eq placed;
      zones = scale.same_zones;
      subnets = scale.same_subnets;
    }

zones-Placed :
    (cluster : Cluster) (plan : MachinePoolState)
    → OnOk (PlacedFrom cluster plan) (validate_az_config cluster plan)
zones-Placed cluster plan =
    OnOk-intro (PlacedFrom cluster plan) (validate_az_config cluster plan)
      (λ r e. validate_az_config-IsPlaced cluster plan r.1 r.0 e)

module _ (env : Env) (sees : SeesFields env.is_empty) where
  -- A plan that Create accepts becomes a pool of the plan's name, in the zones that the plan and
  -- the cluster allow, with either a range of replicas or a count, and the count of a pool over
  -- several zones is a multiple of 3.
  pub build_pool-IsBuilt :
      (cluster : Cluster) (plan : MachinePoolState)
      → OnOk (IsBuilt cluster plan) (build_pool env cluster plan)
  unfolding build_pool
  build_pool-IsBuilt cluster plan =
      OnOk->>= (λ a. Unit {0}) (IsBuilt cluster plan) _ _
        (OnOk-ok_or_fail (λ a. Unit {0}) (set_spot_instances plan) _ _ (OnOk-anything _))
        (λ spot u.
          OnOk->>= (PlacedFrom cluster plan) (IsBuilt cluster plan) _ _
            (OnOk-ok_or_fail (PlacedFrom cluster plan) _ _ _ (zones-Placed cluster plan))
            (λ zoned placed.
              OnOk->>= (λ a. Unit {0}) (IsBuilt cluster plan) _ _
                (OnOk-anything (add_security_groups env zoned.1 spot))
                (λ groups u.
                  OnOk->>= (λ a. Unit {0}) (IsBuilt cluster plan) _ _
                    (OnOk-anything (add_tags env zoned.1 groups))
                    (λ aws u.
                      OnOk->>= (HasScale zoned.0 (zoned_builder zoned.1 aws)) (IsBuilt cluster plan)
                        _ _
                        (scale-HasScale env sees zoned.0 zoned.1 (zoned_builder zoned.1 aws)
                          (zoned_builder-unscaled zoned.1 aws).0
                          (zoned_builder-unscaled zoned.1 aws).1)
                        (λ b scale. IsBuilt-of cluster plan zoned.1 zoned.0 aws b placed scale)))))
