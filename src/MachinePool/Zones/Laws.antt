-- ===== src/MachinePool/Zones/Laws.antt =====
-- What an accepted zone configuration means.
use terraform_provider_ocm.Prelude.{
  String, Bool, true, false, not, ◌&&◌, ◌≡◌, ◌≢◌, List, [], ◌∷◌, any, ◌==◌, eq_iff, if◌then◌else◌,
  ok, arith, ap, refl, Bool-cases, inl, inr, OnOk, OnOk-ok, OnOk->>=,
}
use terraform_provider_ocm.Common.Attribute.{
  Value, null, unknown, known, has_value, value_string, value_bool,
}
use terraform_provider_ocm.Sdk.{Cluster}
use terraform_provider_ocm.MachinePool.State.{MachinePoolState}
use terraform_provider_ocm.MachinePool.Zones.{
  is_set, multi_az_setting, single_az_setting, default_zone, choose_zone, validate_az_config,
}

-- The zone is one of the cluster's.
abbrev pub InZones : List String → Value String → Type 0
InZones zones v = any (λ az. az == value_string v) zones ≡ true

-- What holds of the filled-in state `s` of a plan for a pool, and of the answer `multi`.
pub record IsPlaced (cluster : Cluster) (plan s : MachinePoolState) (multi : Bool) : Type 0 where
  pub answers : s.multi_availability_zone ≡ known multi
  pub multi_needs_cluster : multi ≡ true → cluster.multi_az ≡ true
  pub multi_has_no_zone : multi ≡ true → is_set s.availability_zone ≡ false
  pub multi_has_no_subnet : multi ≡ true → is_set s.subnet_id ≡ false
  pub zone_or_subnet : is_set s.availability_zone ≡ true → is_set s.subnet_id ≡ false
  pub keeps_zone :
      is_set plan.availability_zone ≡ true → s.availability_zone ≡ plan.availability_zone
  pub zone_in_cluster :
      is_set s.availability_zone ≡ true → InZones cluster.availability_zones s.availability_zone
  pub single_has_zone :
      multi ≡ false
      → cluster.multi_az ≡ true
      → is_set s.subnet_id ≡ false
      → cluster.availability_zones ≢ []
      → has_value s.availability_zone ≡ true
  pub rest : s ≡ record plan {
    multi_availability_zone = s.multi_availability_zone;
    availability_zone = s.availability_zone;
  }

-- A state after the first half of the validation.
record HasSetting (cluster : Cluster) (plan s : MachinePoolState) : Type 0 where
  has_setting : has_value s.multi_availability_zone ≡ true
  needs_cluster : value_bool s.multi_availability_zone ≡ true → cluster.multi_az ≡ true
  no_zone : value_bool s.multi_availability_zone ≡ true → is_set plan.availability_zone ≡ false
  no_subnet : value_bool s.multi_availability_zone ≡ true → is_set plan.subnet_id ≡ false
  not_both : is_set plan.availability_zone ≡ true → is_set plan.subnet_id ≡ false
  same : s ≡ record plan { multi_availability_zone = s.multi_availability_zone }

multi_az_setting-HasSetting :
    (cluster : Cluster) (plan : MachinePoolState)
    → cluster.multi_az ≡ true
    → OnOk (HasSetting cluster plan) (multi_az_setting plan)
unfolding multi_az_setting
multi_az_setting-HasSetting cluster plan is_multi = ground arith

single_az_setting-HasSetting :
    (cluster : Cluster) (plan : MachinePoolState)
    → OnOk (HasSetting cluster plan) (single_az_setting plan)
unfolding single_az_setting
single_az_setting-HasSetting cluster plan = ground arith

setting-HasSetting :
    (cluster : Cluster) (plan : MachinePoolState)
    → OnOk
        (HasSetting cluster plan)
        (if cluster.multi_az then multi_az_setting plan else single_az_setting plan)
setting-HasSetting cluster plan = elim (Bool-cases cluster.multi_az) [
  | inl many ↦ simp many (multi_az_setting-HasSetting cluster plan many)
  | inr one ↦ simp one (single_az_setting-HasSetting cluster plan)
]

is_set-null : is_set null ≡ false
unfolding is_set
is_set-null = refl

default_zone-InZones :
    (may : Bool) (azs : List String)
    → is_set (default_zone may azs) ≡ true
    → (may ≡ true) × InZones azs (default_zone may azs)
unfolding default_zone
default_zone-InZones may [] h = cc (is_set-null)
default_zone-InZones true (az ∷ azs) h = (refl, ground (arith, eq_iff az az))
default_zone-InZones false (az ∷ azs) h = cc (is_set-null)

default_zone-has_value : (azs : List String) → azs ≢ [] → has_value (default_zone true azs) ≡ true
unfolding default_zone
default_zone-has_value [] h = absurd (h refl)
default_zone-has_value (az ∷ azs) h = refl

default_zone-not_set : (azs : List String) → is_set (default_zone false azs) ≡ false
unfolding default_zone
default_zone-not_set [] = is_set-null
default_zone-not_set (az ∷ azs) = is_set-null

eq-known_of_has_value : (v : Value Bool) → has_value v ≡ true → v ≡ known (value_bool v)
eq-known_of_has_value null h = cc
eq-known_of_has_value unknown h = cc
eq-known_of_has_value (known b) h = refl

is_set-has_value : (v : Value String) → is_set v ≡ true → has_value v ≡ true
unfolding is_set
is_set-has_value null h = cc
is_set-has_value unknown h = cc
is_set-has_value (known z) h = refl

-- The pool keeps a zone that is one of the cluster's.
kept-IsPlaced :
    (cluster : Cluster) (plan set : MachinePoolState)
    → HasSetting cluster plan set
    → is_set set.availability_zone ≡ true
    → InZones cluster.availability_zones set.availability_zone
    → IsPlaced cluster plan set (value_bool set.multi_availability_zone)
kept-IsPlaced cluster plan set setting zone_set listed =
    let zone : set.availability_zone ≡ plan.availability_zone =
      ap (λ r. r.availability_zone) setting.same in
    let subnet : set.subnet_id ≡ plan.subnet_id = ap (λ r. r.subnet_id) setting.same in
    record {
      answers = eq-known_of_has_value _ setting.has_setting;
      multi_needs_cluster = setting.needs_cluster;
      multi_has_no_zone = λ m. rw zone (setting.no_zone m);
      multi_has_no_subnet = λ m. rw subnet (setting.no_subnet m);
      zone_or_subnet = λ z. rw subnet (setting.not_both (rw (← zone) z));
      keeps_zone = λ z. zone;
      zone_in_cluster = λ z. listed;
      single_has_zone = λ m c n e. is_set-has_value _ zone_set;
      rest =
          ap {A = MachinePoolState} {B = MachinePoolState}
            (λ r. record r {
              multi_availability_zone = set.multi_availability_zone;
              availability_zone = set.availability_zone;
            })
            setting.same;
    }

choose_zone-IsPlaced :
    (cluster : Cluster) (plan set : MachinePoolState)
    → HasSetting cluster plan set
    → OnOk
        (λ s. IsPlaced cluster plan s (value_bool s.multi_availability_zone))
        (choose_zone cluster set)
unfolding choose_zone
choose_zone-IsPlaced cluster plan set setting =
    let zone : set.availability_zone ≡ plan.availability_zone =
      ap (λ r. r.availability_zone) setting.same in
    let subnet : set.subnet_id ≡ plan.subnet_id = ap (λ r. r.subnet_id) setting.same in
    let azs = cluster.availability_zones in
    let may =
      not (value_bool set.multi_availability_zone)
      && cluster.multi_az
      && not (is_set set.subnet_id) in
    elim (Bool-cases (is_set set.availability_zone)) [
      | inl zone_set ↦
          rw zone_set
            (elim (Bool-cases (any (λ az. az == value_string set.availability_zone) azs)) [
              | inl listed ↦ rw listed (kept-IsPlaced cluster plan set setting zone_set listed)
              | inr unlisted ↦ rw unlisted tt
            ])
      | inr no_zone ↦ rw no_zone (record {
        answers = eq-known_of_has_value _ setting.has_setting;
        multi_needs_cluster = setting.needs_cluster;
        multi_has_no_zone = λ m. ground (arith, default_zone-not_set azs);
        multi_has_no_subnet = λ m. rw subnet (setting.no_subnet m);
        zone_or_subnet = λ z. ground (arith, default_zone-InZones may azs);
        keeps_zone = λ z. cc;
        zone_in_cluster = λ z. (default_zone-InZones may azs z).1;
        single_has_zone = λ m c n e. ground (arith, default_zone-has_value azs);
        rest =
            ap {A = MachinePoolState} {B = MachinePoolState}
              (λ r. record r {
                multi_availability_zone = set.multi_availability_zone;
                availability_zone = default_zone may azs;
              })
              setting.same;
      })
    ]

-- An accepted configuration places the pool: it is over several zones only in a cluster over
-- several zones and then names no zone and no subnet; otherwise it names at most one of the two,
-- and its zone is one of the cluster's, defaulted where the cluster has several and no subnet is
-- given; nothing else of the plan is changed.
pub validate_az_config-IsPlaced :
    (cluster : Cluster) (plan s : MachinePoolState) (multi : Bool)
    → validate_az_config cluster plan ≡ ok (multi, s)
    → IsPlaced cluster plan s multi
unfolding validate_az_config
validate_az_config-IsPlaced cluster plan s multi h =
    OnOk-ok (λ r. IsPlaced cluster plan r.1 r.0) (validate_az_config cluster plan)
      (OnOk->>= (HasSetting cluster plan) _ _ _ (setting-HasSetting cluster plan) (λ set setting.
        OnOk->>= (λ c. IsPlaced cluster plan c (value_bool c.multi_availability_zone)) _ _ _
          (choose_zone-IsPlaced cluster plan set setting) (λ c placed. placed)))
      h
