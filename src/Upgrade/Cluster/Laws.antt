-- ===== src/Upgrade/Cluster/Laws.antt =====
-- Which upgrades are asked for.
use mathlib.Core.Path.{subst}
use terraform_provider_ocm.Prelude.{
  ◌≡◌, refl, Bool, true, false, not, ◌&&◌, ◌||◌, some, List, ok, err, Bool-cases, inl, inr, ℕ,
  arith, if◌then◌else◌,
}
use terraform_provider_ocm.Common.Attribute.{value_string, is_string_attribute_unknown_or_empty}
use terraform_provider_ocm.Client.{pure}
use terraform_provider_ocm.Client.Logic.{
  Ensures, Any, if-Ensures, >>=-Ensures, >>-Ensures, weaken-Ensures, some_or_fail-Ensures,
}
use terraform_provider_ocm.Upgrade.{
  cluster_policies, ClusterUpgrade, History, Env, current_version_not_parsed,
  desired_version_not_parsed, above_requested, fail,
}
use terraform_provider_ocm.Upgrade.Versions.{ClusterRosaClassicState, desired_version}
use terraform_provider_ocm.Upgrade.Versions.Laws.{
  IsReachable, current_id, validate_upgrade-IsReachable,
}
use terraform_provider_ocm.Upgrade.Cluster.{
  requested_version_changed, validate_unless, schedule_when, upgrade_to, compare_versions,
  upgrade_cluster_if_needed,
}
use terraform_provider_ocm.Upgrade.Cluster.Allowed.{IsUpgrade, AllAllowed}
use terraform_provider_ocm.Upgrade.Requests.{schedule-Ensures, scheduled-Ensures, check-Ensures}

module _ {V : Type 0} (env : Env V) (state plan : ClusterRosaClassicState) where
  -- What a validation that is needed has shown.
  abbrev Validated : Bool → V → Type 0
  Validated canceling_only desired =
      canceling_only ≡ false → IsReachable env (current_id env state) desired

  validate_unless-Ensures :
      (canceling_only : Bool) (desired : V)
      → desired_version env plan ≡ some desired
      → Ensures
          (AllAllowed env state plan)
          (validate_unless env canceling_only state plan)
          (λ u. Validated canceling_only desired)
  unfolding validate_unless
  validate_unless-Ensures true desired parsed = λ h p. (p, λ e. cc)
  validate_unless-Ensures false desired parsed =
      weaken-Ensures (AllAllowed env state plan) _ (λ u. Validated false desired) _
        (λ u (d, e, offered) f.
          let same : d ≡ desired = cc in
          subst (IsReachable env (current_id env state)) same offered)
        (validate_upgrade-IsReachable env state (AllAllowed env state plan) (λ id h p. (tt, p))
          plan)

  schedule_when-Ensures :
      (due : Bool) (desired : V)
      → (due ≡ true → IsUpgrade env state plan desired)
      → Ensures (AllAllowed env state plan) (schedule_when env due state plan desired) Any
  unfolding schedule_when
  schedule_when-Ensures false desired good = λ h p. (p, tt)
  schedule_when-Ensures true desired good =
      schedule-Ensures env (cluster_policies (value_string state.id)) (IsUpgrade env state plan)
        desired (value_string plan.upgrade_acks_for) (good refl)

  upgrade_to-Ensures :
      (fuel : ℕ) (current desired : V)
      → env.semver.parse (value_string state.current_version) ≡ some current
      → desired_version env plan ≡ some desired
      → env.semver.greater_than current desired ≡ false
      → Ensures (AllAllowed env state plan) (upgrade_to env fuel state plan current desired) Any
  unfolding upgrade_to
  upgrade_to-Ensures fuel current desired is_current is_desired not_above =
      let only = env.semver.equal desired current in
      >>-Ensures (AllAllowed env state plan) (Validated only desired) Any _ _
        (validate_unless-Ensures only desired is_desired)
        (λ validated.
          >>=-Ensures (AllAllowed env state plan) (λ (r : List ClusterUpgrade). Unit {0}) Any _ _
            (scheduled-Ensures env (cluster_policies (value_string state.id))
              (IsUpgrade env state plan) fuel)
            (λ upgrades u.
              >>=-Ensures (AllAllowed env state plan) (λ (r : Bool). Unit {0}) Any _ _
                (check-Ensures env (cluster_policies (value_string state.id))
                  (IsUpgrade env state plan) desired upgrades)
                (λ pending u.
                  >>-Ensures (AllAllowed env state plan) Unit Any _ _
                    (schedule_when-Ensures (not pending && not only) desired
                      (is_upgrade pending only refl validated))
                    (λ u. λ h p. (p, tt)))))
    where
      is_upgrade :
          (pending only : Bool)
          → env.semver.equal desired current ≡ only
          → Validated only desired
          → (not pending && not only) ≡ true
          → IsUpgrade env state plan desired
      is_upgrade true only e validated due = absurd (ground arith)
      is_upgrade false true e validated due = absurd (ground arith)
      is_upgrade false false e validated due =
          (current, is_current, is_desired, not_above, e, validated refl)

  compare_versions-Ensures :
      (fuel : ℕ) (current desired : V)
      → env.semver.parse (value_string state.current_version) ≡ some current
      → desired_version env plan ≡ some desired
      → Ensures
          (AllAllowed env state plan)
          (compare_versions env fuel state plan current desired)
          Any
  unfolding compare_versions
  compare_versions-Ensures fuel current desired is_current is_desired =
      elim (Bool-cases (env.semver.greater_than current desired)) [
        | inl above ↦ rw above (
            if-Ensures (AllAllowed env state plan) Any (requested_version_changed state plan)
              (fail above_requested) (pure state) (λ h p. (p, tt)) (λ h p. (p, tt)))
        | inr not_above ↦
            rw not_above (upgrade_to-Ensures fuel current desired is_current is_desired not_above)
      ]

  -- Every request that an upgrade adds to a history of allowed requests is allowed. Policies are
  -- listed, read, tried and added for the state's cluster only, and gates are acknowledged for it
  -- only. A gate is acknowledged or a policy added only where the plan's version is neither below nor
  -- equal to the current version, and where the API, after some requests, lists among the available
  -- upgrades of the state's current version one that it answers to be enabled for ROSA, in the same
  -- channel group, and whose number equals the plan's version. A policy that is added is for that
  -- version.
  pub upgrade-AllAllowed :
      (fuel : ℕ) (h : History)
      → AllAllowed env state plan h
      → AllAllowed env state plan (upgrade_cluster_if_needed env fuel state plan h).1
  unfolding upgrade_cluster_if_needed
  upgrade-AllAllowed fuel h p =
      (if-Ensures (AllAllowed env state plan) Any
        (is_string_attribute_unknown_or_empty plan.version
          || is_string_attribute_unknown_or_empty state.current_version)
        (pure state) _ (λ h p. (p, tt))
        (>>=-Ensures (AllAllowed env state plan)
          (λ current. env.semver.parse (value_string state.current_version) ≡ some current) Any _ _
          (some_or_fail-Ensures (AllAllowed env state plan)
            (env.semver.parse (value_string state.current_version)) current_version_not_parsed)
          (λ current is_current.
            >>=-Ensures (AllAllowed env state plan)
              (λ desired. desired_version env plan ≡ some desired) Any _ _
              (some_or_fail-Ensures (AllAllowed env state plan) (desired_version env plan)
                desired_version_not_parsed)
              (λ desired is_desired.
                compare_versions-Ensures fuel current desired is_current is_desired)))
        h p).0

  -- A version below the current one is never upgraded to: without a request, the upgrade reports that
  -- the version is above the requested one if the plan asks for another version than the state did,
  -- and leaves the state as it is otherwise.
  pub upgrade-downgrade :
      (fuel : ℕ) (h : History) (current desired : V)
      → is_string_attribute_unknown_or_empty plan.version ≡ false
      → is_string_attribute_unknown_or_empty state.current_version ≡ false
      → env.semver.parse (value_string state.current_version) ≡ some current
      → desired_version env plan ≡ some desired
      → env.semver.greater_than current desired ≡ true
      → upgrade_cluster_if_needed env fuel state plan h
        ≡ ((if requested_version_changed state plan then err above_requested else ok state), h)
  unfolding upgrade_cluster_if_needed compare_versions
  upgrade-downgrade fuel h current desired planned known is_current is_desired above =
      rw (planned, known, is_current, is_desired, above) (ground arith)
