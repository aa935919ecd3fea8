-- ===== src/Upgrade/Requests.antt =====
-- The requests that an upgrade may send, and the parts of it that send no others.
use terraform_provider_ocm.Prelude.{
  ◌≡◌, refl, String, Option, some, List, [], ◌∷◌, All, OnOk-anything, ℕ, ◌+◌,
}
use terraform_provider_ocm.Client.Logic.{
  Ensures, Any, if-Ensures, pure-Ensures, >>=-Ensures, some_or_fail-Ensures, send-Ensures,
}
use terraform_provider_ocm.Client.Paging.Laws.{pages-Ensures}
use terraform_provider_ocm.Upgrade.{
  PoliciesClient, cluster_of, Action, PolicyState, Policy, ClusterUpgrade, Request, get_version,
  get_cluster_version, get_pool_version, list_policies, get_policy_state, delete_policy, dry_run,
  ack_gate, add_policy, History, Env, UpgradeError, list_failed, out_of_fuel, state_failed,
  ten_minutes,
}
use terraform_provider_ocm.Upgrade.Policies.{
  list_pages, fetch_state, fetch_states, get_scheduled_upgrades, check_and_cancel_upgrades,
}
use terraform_provider_ocm.Upgrade.Policies.Cancelling.{Allows, check_and_cancel-Answers}
use terraform_provider_ocm.Upgrade.Gates.{schedule_upgrade}
use terraform_provider_ocm.Upgrade.Gates.Laws.{schedule_upgrade-Ensures}

module _ {V : Type 0} (env : Env V) (client : PoliciesClient) (IsUpgrade : V → Type 0) where
  -- Policies are read, tried and added only with this client, and gates acknowledged only for its
  -- cluster; a gate is acknowledged and a policy is added only for an upgrade.
  abbrev pub IsAllowed : Request → Type 0
  IsAllowed (get_version id) = Unit
  IsAllowed (get_cluster_version cluster) = Unit
  IsAllowed (get_pool_version cluster pool) = Unit
  IsAllowed (list_policies c page) = c ≡ client
  IsAllowed (get_policy_state c pid) = c ≡ client
  IsAllowed (delete_policy c pid) = Unit
  IsAllowed (dry_run c version) = c ≡ client
  IsAllowed (ack_gate cluster gate) =
      (cluster ≡ cluster_of client) × ((desired : V) × IsUpgrade desired)
  IsAllowed (add_policy c version t) =
      (c ≡ client) × ((desired : V) × (version ≡ env.semver.text desired) × IsUpgrade desired)

  abbrev pub AllAllowed : History → Type 0
  AllAllowed = All IsAllowed

  list_pages-Ensures : (fuel page : ℕ) → Ensures AllAllowed (list_pages env client fuel page) Any
  unfolding list_pages
  list_pages-Ensures fuel page =
      pages-Ensures (list_policies client) (λ h page. env.api.on_list_policies h client page)
        list_failed out_of_fuel AllAllowed fuel page (λ h k p. (refl, p))

  fetch_state-Ensures :
      (policy : Policy) (others : Action (List ClusterUpgrade))
      → Ensures AllAllowed others Any
      → Ensures AllAllowed (fetch_state env client policy others) Any
  unfolding fetch_state
  fetch_state-Ensures policy others good =
      >>=-Ensures AllAllowed (λ (r : Option PolicyState). Unit {0}) Any _ _
        (send-Ensures UpgradeError AllAllowed (get_policy_state client policy.id)
          (λ h. env.api.on_policy_state h client policy.id) (λ h p. (refl, p)))
        (λ reply u.
          >>=-Ensures AllAllowed (λ (found : PolicyState). reply ≡ some found) Any _ _
            (some_or_fail-Ensures AllAllowed reply state_failed)
            (λ found e.
              >>=-Ensures AllAllowed (λ (r : List ClusterUpgrade). Unit {0}) Any others _ good
                (λ rest u.
                  pure-Ensures UpgradeError AllAllowed Any
                    (record { policy = policy; state = found } ∷ rest) tt)))

  fetch_states-Ensures :
      (policies : List Policy) → Ensures AllAllowed (fetch_states env client policies) Any
  unfolding fetch_states
  fetch_states-Ensures [] = λ h p. (p, tt)
  fetch_states-Ensures (policy ∷ policies) =
      let others = fetch_states env client policies in
      if-Ensures AllAllowed Any policy.of_this_type (fetch_state env client policy others) others
        (fetch_state-Ensures policy others (fetch_states-Ensures policies))
        (fetch_states-Ensures policies)

  pub scheduled-Ensures :
      (fuel : ℕ) → Ensures AllAllowed (get_scheduled_upgrades env fuel client) Any
  unfolding get_scheduled_upgrades
  scheduled-Ensures fuel =
      >>=-Ensures AllAllowed (λ (r : List Policy). Unit {0}) Any _ _ (list_pages-Ensures fuel 1)
        (λ policies u. fetch_states-Ensures policies)

  All-Allows :
      (desired : V) (limit : ℕ) (upgrades : List ClusterUpgrade)
      → All (Allows env desired limit IsAllowed) upgrades
  All-Allows desired limit [] = tt
  All-Allows desired limit (upgrade ∷ upgrades) = (λ may. tt, All-Allows desired limit upgrades)

  pub check-Ensures :
      (desired : V) (upgrades : List ClusterUpgrade)
      → Ensures AllAllowed (check_and_cancel_upgrades env upgrades desired) Any
  check-Ensures desired upgrades h p =
      let (kept, answer) =
        check_and_cancel-Answers env desired upgrades IsAllowed h
          (All-Allows desired (env.now h + ten_minutes) upgrades) p in
      (kept, OnOk-anything _)

  pub schedule-Ensures :
      (desired : V) (user_ack : String)
      → IsUpgrade desired
      → Ensures AllAllowed (schedule_upgrade env client desired user_ack) Any
  schedule-Ensures desired user_ack good =
      schedule_upgrade-Ensures env client desired AllAllowed (λ h p. (refl, p))
        (λ gate h p. ((refl, (desired, good)), p)) (λ t h p. ((refl, (desired, refl, good)), p))
        user_ack
