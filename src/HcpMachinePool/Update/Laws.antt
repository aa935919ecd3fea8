-- ===== src/HcpMachinePool/Update/Laws.antt =====
-- What an update of a node pool sends.
use terraform_provider_ocm.Prelude.{
  ◌≡◌, ◌∙◌, ap, inl, inr, Option, none, some, List, [], ◌∷◌, ◌++◌, map, All, OnOk, OnOk-anything,
  Option-cases, refl, Result, ok, err,
}
use terraform_provider_ocm.Common.Attribute.{value_string}
use terraform_provider_ocm.Common.Response.{save}
use terraform_provider_ocm.Sdk.{Cluster, Reply, success}
use terraform_provider_ocm.Handler.{pure}
use terraform_provider_ocm.Handler.Logic.{
  Ensures, Any, Adds, Adds-nothing, Adds-one, pure-Ensures, lift-Ensures, send-Ensures, >>=-Ensures,
  >>-Ensures, body_or_fail-Ensures, built_or_fail-Ensures, none_or_fail-Ensures,
}
use terraform_provider_ocm.Upgrade
use terraform_provider_ocm.Upgrade.{UpgradeError}
use terraform_provider_ocm.Upgrade.Hosted.{Versioned}
use terraform_provider_ocm.Upgrade.Hosted.Laws.{AllPoolAllowed, upgrade_machine_pool-AllAllowed}
use terraform_provider_ocm.HcpMachinePool.State.{HcpMachinePoolState, NodePool}
use terraform_provider_ocm.HcpMachinePool.Scaling.Laws.{SeesFields}
use terraform_provider_ocm.HcpMachinePool.Read.Laws.{fetch_cluster-Ensures}
use terraform_provider_ocm.HcpMachinePool.Requests.{IsPatchOf, IsUpgrading, IsSent, Builds}
use terraform_provider_ocm.HcpMachinePool.Server.{
  Request, get_cluster, get_pool, update_pool, upgrade_request, History, Env,
}
use terraform_provider_ocm.HcpMachinePool.Immutable.{validate_no_immutable_att_change}
use terraform_provider_ocm.HcpMachinePool.Update.{
  adjusted, versioned, adjust_initial_state_to_plan, upgrade_pool, after_upgrade, send_update,
  with_cluster, do_update, update,
}
use terraform_provider_ocm.HcpMachinePool.Update.Body.{update_body-IsPatchOf}

-- The upgrade leaves the identifiers alone.
abbrev SamePool : HcpMachinePoolState → HcpMachinePoolState → Type 0
SamePool before state = state.id ≡ before.id

after_upgrade-same :
    (before : HcpMachinePoolState) (r : Result UpgradeError Versioned)
    → OnOk (SamePool before) (after_upgrade before r)
unfolding after_upgrade
after_upgrade-same before (ok v) = refl
after_upgrade-same before (err why) = tt

-- The adjusted state is of the same pool.
abbrev pub SameIds : HcpMachinePoolState → HcpMachinePoolState → Type 0
SameIds before state = (state.cluster ≡ before.cluster) × (state.id ≡ before.id)

pub adjust-Ensures :
    (P : History → Type 0) (state plan : HcpMachinePoolState)
    → Ensures P (adjust_initial_state_to_plan state plan) (SameIds state)
unfolding adjust_initial_state_to_plan adjusted
adjust-Ensures P state plan = elim (Option-cases plan.auto_scaling) [
  | inl absent ↦ rw absent (λ h p. (p, tt))
  | inr (scaling, e) ↦ rw e (elim (Option-cases plan.aws_node_pool) [
    | inl absent ↦ rw absent (λ h p. (p, tt))
    | inr (aws, e') ↦ rw e' (λ h p. (p, (refl, refl)))
  ])
]

module _ {V : Type 0} (env : Env V) (sees : SeesFields env.is_empty) (builds : Builds env)
    (P : History → Type 0) (before plan : HcpMachinePoolState)
    (keep : (r : Request) → IsSent env before plan r → (h : History) → P h → P (r ∷ h)) where
  keep_upgrades :
      (sent : List Upgrade.Request) (h : History)
      → All (IsUpgrading env before plan) sent
      → P h
      → P (map upgrade_request sent ++ h)
  keep_upgrades [] h all p = p
  keep_upgrades (r ∷ sent) h (allowed, all) p =
      keep (upgrade_request r) allowed _ (keep_upgrades sent h all p)

  All-IsUpgrading :
      (h : History) (sent : List Upgrade.Request)
      → AllPoolAllowed
          (env.upgrades h)
          (value_string before.cluster)
          (value_string before.id)
          (versioned before)
          (versioned plan)
          sent
      → All (IsUpgrading env before plan) sent
  All-IsUpgrading h [] all = tt
  All-IsUpgrading h (r ∷ sent) (allowed, all) = ((h, allowed), All-IsUpgrading h sent all)

  upgrade_pool-Ensures : Ensures P (upgrade_pool env before plan) (SamePool before)
  unfolding upgrade_pool
  upgrade_pool-Ensures h p =
      let allowed =
        upgrade_machine_pool-AllAllowed (env.upgrades h) (value_string before.cluster)
          env.upgrade_fuel (value_string before.id) (versioned before) (versioned plan) [] tt in
      (keep_upgrades _ h (All-IsUpgrading h _ allowed) p, after_upgrade-same before _)

  send_update-Ensures : (cluster : Cluster) → Ensures P (send_update env before plan cluster) Any
  unfolding send_update
  send_update-Ensures cluster =
      let cid = value_string before.cluster in
      let pid = value_string before.id in
      >>=-Ensures P (λ (r : Reply NodePool). Unit {0}) Any _ _
        (send-Ensures P (get_pool cid pid) (λ h. env.server.on_get_pool h cid pid)
          (keep (get_pool cid pid) (refl, refl)))
        (λ found u.
          >>=-Ensures P (λ (a : NodePool). found ≡ success a) Any _ _
            (body_or_fail-Ensures P found _ _)
            (λ existing e.
              >>=-Ensures P (SamePool before) Any _ _ upgrade_pool-Ensures (λ state same.
                >>=-Ensures P (IsPatchOf (value_string state.id)) Any _ _
                  (update_body-IsPatchOf env sees P state plan)
                  (λ b is_patch.
                    >>=-Ensures P (λ p. env.build b ≡ some p) Any _ _
                      (built_or_fail-Ensures P (env.build b) _ _)
                      (λ body built.
                        >>=-Ensures P (λ (r : Reply NodePool). Unit {0}) Any _ _
                          (send-Ensures P (update_pool cid pid body)
                            (λ h. env.server.on_update_pool h cid pid body)
                            (keep (update_pool cid pid body) (
                              refl,
                              refl,
                              rw (builds b body built)
                                  (is_patch.0 ∙ ap value_string same, is_patch.1),
                            )))
                          (λ reply v.
                            >>=-Ensures P (λ (a : NodePool). reply ≡ success a) Any _ _
                              (body_or_fail-Ensures P reply _ _)
                              (λ object e'.
                                >>=-Ensures P (SameIds state) Any _ _ (adjust-Ensures P state plan)
                                  (λ start w. lift-Ensures P Any _ (OnOk-anything _)))))))))

  with_cluster-Ensures :
      (cluster : Option Cluster) → Ensures P (with_cluster env before plan cluster) Any
  unfolding with_cluster
  with_cluster-Ensures none = pure-Ensures P Any before tt
  with_cluster-Ensures (some cluster) = send_update-Ensures cluster

  pub do_update-Ensures : Ensures P (do_update env before plan) Any
  unfolding do_update
  do_update-Ensures =
      let ds = validate_no_immutable_att_change before plan in
      >>-Ensures P (ds ≡ []) Any _ _ (none_or_fail-Ensures P ds) (λ e.
        >>=-Ensures P (λ (c : Option Cluster). Unit {0}) Any _ _
          (fetch_cluster-Ensures env P plan.cluster
            (keep (get_cluster (value_string plan.cluster)) refl))
          (λ cluster u. with_cluster-Ensures cluster))

module _ {V : Type 0} (env : Env V) (sees : SeesFields env.is_empty) (builds : Builds env) where
  -- Every request that an update adds to the history is one of these. It reads the plan's cluster, or
  -- the pool of the state in the state's cluster. It patches that pool in that cluster, and the body
  -- has the pool's identifier and either a range of replicas or a count, and never both or neither. Or
  -- it is allowed to an upgrade of that pool from the state's version to the plan's, as for
  -- upgrade_machine_pool-AllAllowed, which leaves open what policies are deleted.
  pub update_hcp-AllSent :
      (state plan : HcpMachinePoolState) (h : History)
      → Adds (IsSent env state plan) h (update env state plan h).1
  unfolding update
  update_hcp-AllSent state plan h =
      let Sent : History → Type 0 = Adds (IsSent env state plan) h in
      (>>=-Ensures Sent Any Any (do_update env state plan) (λ s. pure (save s))
        (do_update-Ensures env sees builds Sent state plan (Adds-one (IsSent env state plan) h))
        (λ s u k p. (p, tt)) h (Adds-nothing (IsSent env state plan) h)).0
