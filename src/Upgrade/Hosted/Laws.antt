-- ===== src/Upgrade/Hosted/Laws.antt =====
-- Which upgrades of a hosted control plane or a node pool are asked for.
use terraform_provider_ocm.Prelude.{
  ◌≡◌, refl, String, Bool, true, false, not, ◌&&◌, ◌||◌, some, List, All, Bool-cases, inl, inr, ℕ,
  arith, OnOk,
}
use terraform_provider_ocm.Common.Attribute.{value_string, is_string_attribute_unknown_or_empty}
use terraform_provider_ocm.Client.{pure}
use terraform_provider_ocm.Client.Logic.{
  Ensures, Any, if-Ensures, >>=-Ensures, >>-Ensures, weaken-Ensures, some_or_fail-Ensures,
}
use terraform_provider_ocm.Upgrade.{
  PoliciesClient, control_plane_policies, node_pool_policies, VersionInfo, ClusterUpgrade, Request,
  History, Env, current_version_not_parsed, desired_version_not_parsed, above_requested, Action,
  fail,
}
use terraform_provider_ocm.Upgrade.Versions.Laws.{validate_in-Offers}
use terraform_provider_ocm.Upgrade.Versions.{is_among}
use terraform_provider_ocm.Upgrade.Requests
use terraform_provider_ocm.Upgrade.Requests.{schedule-Ensures, scheduled-Ensures, check-Ensures}
use terraform_provider_ocm.Upgrade.Hosted.{
  Versioned, version_changed, trimmed_version, validate_unless, schedule_when, upgrade_to,
  compare_versions, upgrade_if_needed,
}
use terraform_provider_ocm.Upgrade.Hosted.Offers.{
  OffersControlPlane, ServesControlPlane, OffersPool, ServesPool, control_plane_offers, pool_offers,
  control_plane_serves, pool_serves,
}
use terraform_provider_ocm.Upgrade.Hosted.ControlPlane
use terraform_provider_ocm.Upgrade.Hosted.NodePool

module _ {V : Type 0} (env : Env V) (client : PoliciesClient) (Offers : V → Type 0)
    (state plan : Versioned) where
  -- The plan's version may be upgraded to: it is neither below the current version nor equal to it,
  -- and it is on offer without its old prefix.
  abbrev pub IsUpgrade : V → Type 0
  IsUpgrade desired =
      (current : V) × (env.semver.parse (value_string state.current_version) ≡ some current)
      × (env.semver.parse (value_string plan.version) ≡ some desired)
      × (env.semver.greater_than current desired ≡ false)
      × (env.semver.equal desired current ≡ false)
      × ((trimmed : V) × (trimmed_version env plan ≡ some trimmed) × Offers trimmed)

  abbrev pub AllAllowed : History → Type 0
  AllAllowed = Requests.AllAllowed env client IsUpgrade

  abbrev Trimmed : Type 0
  Trimmed = (trimmed : V) × (trimmed_version env plan ≡ some trimmed) × Offers trimmed

  module _ (available : Action (List VersionInfo)) (Serves : List VersionInfo → Type 0)
      (serves_offers : (desired : V) (infos : List VersionInfo)
        → Serves infos
        → OnOk (λ found. found ≡ true → Offers desired) (is_among env desired infos))
      (all_served : Ensures AllAllowed available Serves) where
    validate_unless-Ensures :
        (only : Bool)
        → Ensures AllAllowed
            (validate_unless env client available only plan)
            (λ u. only ≡ false → Trimmed)
    unfolding validate_unless
    validate_unless-Ensures true = λ h p. (p, λ e. cc)
    validate_unless-Ensures false =
        weaken-Ensures AllAllowed (λ u. Trimmed) (λ u. false ≡ false → Trimmed) _
          (λ u offered e. offered)
          (validate_in-Offers env AllAllowed Serves Offers serves_offers available
            (trimmed_version env plan) all_served)

    schedule_when-Ensures :
        (due : Bool) (desired : V)
        → (due ≡ true → IsUpgrade desired)
        → Ensures AllAllowed (schedule_when env client available due plan desired) Any
    unfolding schedule_when
    schedule_when-Ensures false desired good = λ h p. (p, tt)
    schedule_when-Ensures true desired good =
        schedule-Ensures env client IsUpgrade desired (value_string plan.upgrade_acks_for)
          (good refl)

    is_upgrade :
        (current desired : V) (waits only : Bool)
        → env.semver.parse (value_string state.current_version) ≡ some current
        → env.semver.parse (value_string plan.version) ≡ some desired
        → env.semver.greater_than current desired ≡ false
        → env.semver.equal desired current ≡ only
        → (only ≡ false → Trimmed)
        → (not waits && not only) ≡ true
        → IsUpgrade desired
    is_upgrade current desired true only a b c e validated due = absurd (ground arith)
    is_upgrade current desired false true a b c e validated due = absurd (ground arith)
    is_upgrade current desired false false a b c e validated due =
        (current, a, b, c, e, validated refl)

    upgrade_to-Ensures :
        (fuel : ℕ) (current desired : V)
        → env.semver.parse (value_string state.current_version) ≡ some current
        → env.semver.parse (value_string plan.version) ≡ some desired
        → env.semver.greater_than current desired ≡ false
        → Ensures AllAllowed (upgrade_to env client available fuel state plan current desired) Any
    unfolding upgrade_to
    upgrade_to-Ensures fuel current desired is_current is_desired not_above =
        let only = env.semver.equal desired current in
        >>-Ensures AllAllowed (only ≡ false → Trimmed) Any _ _ (validate_unless-Ensures only)
          (λ validated.
            >>=-Ensures AllAllowed (λ (r : List ClusterUpgrade). Unit {0}) Any _ _
              (scheduled-Ensures env client IsUpgrade fuel)
              (λ upgrades u.
                >>=-Ensures AllAllowed (λ (r : Bool). Unit {0}) Any _ _
                  (check-Ensures env client IsUpgrade desired upgrades)
                  (λ waits u.
                    >>-Ensures AllAllowed Unit Any _ _
                      (schedule_when-Ensures (not waits && not only) desired (
                        is_upgrade current desired waits only is_current is_desired not_above refl
                          validated))
                      (λ u. λ h p. (p, tt)))))

    compare_versions-Ensures :
        (fuel : ℕ) (current desired : V)
        → env.semver.parse (value_string state.current_version) ≡ some current
        → env.semver.parse (value_string plan.version) ≡ some desired
        → Ensures AllAllowed
            (compare_versions env client available fuel state plan current desired)
            Any
    unfolding compare_versions
    compare_versions-Ensures fuel current desired is_current is_desired =
        elim (Bool-cases (env.semver.greater_than current desired)) [
          | inl above ↦ rw above (
              if-Ensures AllAllowed Any (version_changed state plan) (fail above_requested)
                (pure state) (λ h p. (p, tt)) (λ h p. (p, tt)))
          | inr not_above ↦
              rw not_above (upgrade_to-Ensures fuel current desired is_current is_desired not_above)
        ]

    pub upgrade_if_needed-Ensures :
        (fuel : ℕ) → Ensures AllAllowed (upgrade_if_needed env client available fuel state plan) Any
    unfolding upgrade_if_needed
    upgrade_if_needed-Ensures fuel =
        if-Ensures AllAllowed Any
          (is_string_attribute_unknown_or_empty plan.version
            || is_string_attribute_unknown_or_empty state.current_version)
          (pure state) _ (λ h p. (p, tt))
          (>>=-Ensures AllAllowed
            (λ current. env.semver.parse (value_string state.current_version) ≡ some current) Any _
            _
            (some_or_fail-Ensures AllAllowed (env.semver.parse (value_string state.current_version))
              current_version_not_parsed)
            (λ current is_current.
              >>=-Ensures AllAllowed
                (λ desired. env.semver.parse (value_string plan.version) ≡ some desired) Any _ _
                (some_or_fail-Ensures AllAllowed (env.semver.parse (value_string plan.version))
                  desired_version_not_parsed)
                (λ desired is_desired.
                  compare_versions-Ensures fuel current desired is_current is_desired)))

module _ {V : Type 0} (env : Env V) (cid : String) where
  abbrev pub IsPoolAllowed : String → Versioned → Versioned → Request → Type 0
  IsPoolAllowed pool_id state plan =
      let pool = node_pool_policies cid pool_id in
      Requests.IsAllowed env pool (IsUpgrade env pool (OffersPool env cid pool_id) state plan)

  abbrev pub AllPoolAllowed : String → Versioned → Versioned → History → Type 0
  AllPoolAllowed pool_id state plan = All (IsPoolAllowed pool_id state plan)

  -- Every request that an upgrade of a node pool adds to a history of allowed requests is allowed.
  -- Policies are listed, read, tried and added for this pool of this cluster only, and gates are
  -- acknowledged for the cluster only. A gate is acknowledged or a policy added only where the plan's
  -- version is neither below nor equal to the current version, and where the API, after some
  -- requests, lists among this pool's available upgrades one that it answers to be enabled for hosted
  -- control planes, in the channel group that it answers for the cluster, and whose number equals the
  -- plan's version without its old prefix. A policy that is added is for the plan's version.
  pub upgrade_machine_pool-AllAllowed :
      (fuel : ℕ) (pool_id : String) (state plan : Versioned) (h : History)
      → AllPoolAllowed pool_id state plan h
      → AllPoolAllowed pool_id state plan
          (NodePool.upgrade_machine_pool_if_needed env fuel cid pool_id state plan h).1
  unfolding NodePool.upgrade_machine_pool_if_needed
  upgrade_machine_pool-AllAllowed fuel pool_id state plan h p =
      (upgrade_if_needed-Ensures env (node_pool_policies cid pool_id) (OffersPool env cid pool_id)
        state plan (NodePool.get_available_upgrade_versions env cid pool_id)
        (ServesPool env cid pool_id) (pool_offers env cid pool_id)
        (pool_serves env cid (AllPoolAllowed pool_id state plan) (λ id h p. (tt, p))
          (λ h p. (tt, p)) pool_id (λ h p. (tt, p)))
        fuel h p).0

  abbrev pub AllClusterAllowed : Versioned → Versioned → History → Type 0
  AllClusterAllowed = AllAllowed env (control_plane_policies cid) (OffersControlPlane env cid)

  -- Every request that an upgrade of the control plane adds to a history of allowed requests is
  -- allowed. Policies are listed, read, tried and added for the control plane of this cluster only,
  -- and gates are acknowledged for the cluster only. A gate is acknowledged or a policy added only
  -- where the plan's version is neither below nor equal to the current version, and where the API,
  -- after some requests, lists among the cluster's available upgrades one that it answers to be
  -- enabled for hosted control planes, in the cluster's channel group, and whose number equals the
  -- plan's version without its old prefix. A policy that is added is for the plan's version.
  pub upgrade_control_plane-AllAllowed :
      (fuel : ℕ) (state plan : Versioned) (h : History)
      → AllClusterAllowed state plan h
      → AllClusterAllowed state plan
          (ControlPlane.upgrade_cluster_if_needed env fuel cid state plan h).1
  unfolding ControlPlane.upgrade_cluster_if_needed
  upgrade_control_plane-AllAllowed fuel state plan h p =
      (upgrade_if_needed-Ensures env (control_plane_policies cid) (OffersControlPlane env cid) state
        plan (ControlPlane.get_available_upgrade_versions env cid) (ServesControlPlane env cid)
        (control_plane_offers env cid)
        (control_plane_serves env cid (AllClusterAllowed state plan) (λ id h p. (tt, p))
          (λ h p. (tt, p)))
        fuel h p).0
