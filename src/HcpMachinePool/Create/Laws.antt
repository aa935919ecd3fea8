-- ===== src/HcpMachinePool/Create/Laws.antt =====
-- What a create of a node pool sends, and what it reports.
use mathlib.Core.Path.{subst}
use terraform_provider_ocm.Upgrade.Hosted.Laws.{IsPoolAllowed}
use terraform_provider_ocm.HcpMachinePool.Update.{versioned}
use terraform_provider_ocm.Sdk.{success}
use terraform_provider_ocm.Prelude.{
  Bool, true, false, not, ◌≡◌, ◌∙◌, ap, inl, inr, Option, none, some, List, ◌∷◌, refl, OnOk,
  Bool-cases, arith, Result, ok, err, codes,
}
use terraform_provider_ocm.Common.Attribute.{has_value, value_string}
use terraform_provider_ocm.Common.Response.{Diagnostic, Response, saved, has_error}
use terraform_provider_ocm.Sdk.{Cluster}
use terraform_provider_ocm.Handler.{respond}
use terraform_provider_ocm.Handler.Logic.{
  Ensures, Any, Adds, Adds-nothing, Adds-one, pure-Ensures, lift-Ensures, >>=-Ensures, >>-Ensures,
  weaken-Ensures, fail_when-Ensures,
}
use terraform_provider_ocm.MachinePool.Builder.{matches_name}
use terraform_provider_ocm.HcpMachinePool.State.{HcpMachinePoolState, NodePool}
use terraform_provider_ocm.HcpMachinePool.Scaling.Laws.{SeesFields}
use terraform_provider_ocm.HcpMachinePool.Builder.{is_standard_name, set_subnet}
use terraform_provider_ocm.HcpMachinePool.Builder.Laws.{
  gives_both, IsFor, set_subnet-id, IsReady, start_builder-IsFor, scale-IsReady,
}
use terraform_provider_ocm.HcpMachinePool.Requests.{IsSent, IsDefault, IsOfPlan, IsCreating, Builds}
use terraform_provider_ocm.HcpMachinePool.Server.{
  Request, get_cluster, list_pools, get_pool, delete_pool, add_pool, update_pool, upgrade_request,
  History, Env,
}
use terraform_provider_ocm.HcpMachinePool.Read.{PoolRead, pool_not_found, pool_state}
use terraform_provider_ocm.HcpMachinePool.Read.Laws.{Reads, read_state-Reads}
use terraform_provider_ocm.HcpMachinePool.Update.Laws.{SameIds, adjust-Ensures, do_update-Ensures}
use terraform_provider_ocm.HcpMachinePool.Create.{
  initial_state, create_new, import_read, magic_import, create_in, import_from, await_cluster,
  do_create, create,
}
use terraform_provider_ocm.HcpMachinePool.Create.Added.{after_earlier-Ensures, add_built-Ensures}

-- An error stands in the response exactly when the plan gives both a range and a count.
abbrev Reports : HcpMachinePoolState → Response HcpMachinePoolState → Type 0
Reports plan r = has_error r.diagnostics ≡ gives_both plan.auto_scaling (has_value plan.replicas)

-- The response to a create that is not a take-over of a default pool.
abbrev ReportsNew : HcpMachinePoolState → Response HcpMachinePoolState → Type 0
ReportsNew plan r = is_standard_name (codes (value_string plan.name)) ≡ false → Reports plan r

-- An update of a state of the planned pool sends what a create of the plan may send.
IsSent-IsCreating :
    {V : Type 0} (env : Env V) (plan plan' state : HcpMachinePoolState)
    → IsDefault env plan
    → plan'.cluster ≡ plan.cluster
    → versioned plan' ≡ versioned plan
    → IsOfPlan env plan state
    → (r : Request) → IsSent env state plan' r
    → IsCreating env plan r
IsSent-IsCreating env plan plan' state default same versions of_plan (get_cluster cid) sent =
    sent ∙ ap value_string same
IsSent-IsCreating env plan plan' state default same versions of_plan (list_pools cid) sent = sent
IsSent-IsCreating env plan plan' state default same versions of_plan (get_pool cid pid) (a, b) =
    (a ∙ ap value_string of_plan.0, rw b of_plan.1)
IsSent-IsCreating env plan plan' state default same versions of_plan (delete_pool cid pid) sent =
    sent
IsSent-IsCreating env plan plan' state default same versions of_plan (add_pool cid b) sent =
    absurd sent
IsSent-IsCreating env plan plan' state default same versions of_plan (update_pool cid pid b)
      (x, y, patch) =
    (default, x ∙ ap value_string of_plan.0, rw y of_plan.1, patch)
IsSent-IsCreating env plan plan' state default same versions of_plan (upgrade_request r) (h, up) = (
  default,
  (
    state,
    of_plan,
    (
      h,
      subst
          (λ v.
            IsPoolAllowed (env.upgrades h) (value_string state.cluster) (value_string state.id)
              (versioned state) v r)
          versions up,
    ),
  ),
)

module _ {V : Type 0} (env : Env V) (builds : Builds env) (P : History → Type 0)
    (plan : HcpMachinePoolState)
    (keep : (r : Request) → IsCreating env plan r → (h : History) → P h → P (r ∷ h)) where
  create_new-Ensures :
      (cluster : Cluster)
      → SeesFields env.is_empty
      → matches_name (codes (value_string plan.name)) ≡ true
      → is_standard_name (codes (value_string plan.name)) ≡ false
      → Ensures P (create_new env cluster plan) (Reports plan)
  unfolding create_new
  create_new-Ensures cluster sees matches other =
      >>=-Ensures P Started (Reports plan) _ _
        (lift-Ensures P Started _ (start_builder-IsFor env plan plan.aws_node_pool))
        (λ started for_plan.
          >>=-Ensures P (IsReady plan both) (Reports plan) _ _
            (lift-Ensures P (IsReady plan both) _ (
              scale-IsReady env plan (set_subnet plan started.0) plan.auto_scaling sees
                (set_subnet-id plan started.0 ∙ for_plan)))
            (λ scaled (named, has, reports).
              >>=-Ensures P Any (Reports plan) _ _
                (after_earlier-Ensures P scaled.0 _ (
                  add_built-Ensures env builds P
                    (λ cid b addable. keep (add_pool cid b) (addable.named, addable.scaled)) cluster
                    started.1 scaled.1
                    (record {
                      named = record {
                        proper = ap (λ s. matches_name (codes s)) named ∙ matches;
                        not_standard = ap (λ s. is_standard_name (codes s)) named ∙ other;
                      };
                      scaled = has;
                    })))
                (λ state u.
                  pure-Ensures P (Reports plan)
                    (record { diagnostics = scaled.0; state = saved state }) reports)))
    where
      both : Bool
      both = gives_both plan.auto_scaling (has_value plan.replicas)

      Started : NodePool × HcpMachinePoolState → Type 0
      Started r = IsFor plan r.0

  import_read-Ensures :
      (default : IsDefault env plan) (plan' start : HcpMachinePoolState) (found : PoolRead)
      → SeesFields env.is_empty
      → plan'.cluster ≡ plan.cluster
      → versioned plan' ≡ versioned plan
      → start.cluster ≡ plan.cluster
      → value_string start.id ≡ value_string plan.name
      → Reads env P start found
      → Ensures P (import_read env plan' found) Any
  unfolding import_read
  import_read-Ensures default plan' start pool_not_found sees same versions of_plan named reads =
      λ h p. (p, tt)
  import_read-Ensures default plan' start (pool_state state) sees same versions of_plan named
        (a, b) =
      do_update-Ensures env sees builds P state plan' (λ r sent. keep r (
        IsSent-IsCreating env plan plan' state default same versions
          (
            a ∙ of_plan,
            elim b [
              | inl kept ↦ inl (ap value_string kept ∙ named)
              | inr (h, object, e, is) ↦ inr (
                h,
                object,
                subst (λ n. env.server.on_get_pool h (value_string plan.cluster) n ≡ success object)
                    named
                    (subst
                      (λ c.
                        env.server.on_get_pool h (value_string c) (value_string start.id)
                        ≡ success object)
                      of_plan e),
                ap value_string is,
              )
            ],
          )
          r sent))

  import_from-Ensures :
      (default : IsDefault env plan) (plan' start : HcpMachinePoolState)
      → SeesFields env.is_empty
      → plan'.cluster ≡ plan.cluster
      → versioned plan' ≡ versioned plan
      → start.cluster ≡ plan.cluster
      → value_string start.id ≡ value_string plan.name
      → Ensures P (import_from env plan' start) Any
  unfolding import_from
  import_from-Ensures default plan' start sees same versions of_plan named =
      >>=-Ensures P (Reads env P start) Any _ _
        (read_state-Reads env P start
          (keep (get_cluster (value_string start.cluster)) (ap value_string of_plan))
          (keep (get_pool (value_string start.cluster) (value_string start.id))
            (ap value_string of_plan, inl named)))
        (λ found reads.
          import_read-Ensures default plan' start found sees same versions of_plan named reads)

  magic_import-Ensures :
      SeesFields env.is_empty → IsDefault env plan → Ensures P (magic_import env plan) Any
  unfolding magic_import initial_state
  magic_import-Ensures sees default =
      >>=-Ensures P (SameIds (initial_state plan.cluster (value_string plan.name))) Any _ _
        (adjust-Ensures P _ _)
        (λ start (of_plan, named).
          import_from-Ensures default _ start sees refl refl of_plan (ap value_string named))

  create_in-Ensures :
      (cluster : Option Cluster)
      → SeesFields env.is_empty
      → matches_name (codes (value_string plan.name)) ≡ true
      → Ensures P (create_in env cluster plan) (ReportsNew plan)
  unfolding create_in
  create_in-Ensures none sees matches = λ h p. (p, tt)
  create_in-Ensures (some cluster) sees matches =
      elim (Bool-cases (is_standard_name (codes (value_string plan.name)))) [
        | inl standard ↦ rw standard (
            >>=-Ensures P Any (ReportsNew plan) _ _ (magic_import-Ensures sees standard)
              (λ s u h p. (p, λ other. cc)))
        | inr other ↦ rw other (
            weaken-Ensures P (Reports plan) (ReportsNew plan) _ (λ r reports e. reports)
              (create_new-Ensures cluster sees matches other))
      ]

  do_create-Ensures : SeesFields env.is_empty → Ensures P (do_create env plan) (ReportsNew plan)
  unfolding do_create await_cluster
  do_create-Ensures sees =
      >>-Ensures P (not (matches_name (codes (value_string plan.name))) ≡ false) (ReportsNew plan) _
        _ (fail_when-Ensures P (not (matches_name (codes (value_string plan.name)))) _ _)
        (λ matches.
          >>=-Ensures P Any (ReportsNew plan) (await_cluster env plan) _ (λ h p. (p, tt))
            (λ cluster u. create_in-Ensures cluster sees (ground arith)))

module _ {V : Type 0} (env : Env V) (builds : Builds env) where
  IsCreating-Ensures :
      (plan : HcpMachinePoolState) (h : History)
      → SeesFields env.is_empty
      → Adds (IsCreating env plan) h (do_create env plan h).1
        × OnOk (ReportsNew plan) (do_create env plan h).0
  IsCreating-Ensures plan h sees =
      do_create-Ensures env builds (Adds (IsCreating env plan) h) plan
        (Adds-one (IsCreating env plan) h) sees h (Adds-nothing (IsCreating env plan) h)

  -- Every request that a create adds to the history is one of these. It reads the plan's cluster, or
  -- the planned pool there: the one of the plan's name, or the one that the API answers with when it
  -- is asked, after some requests, for that name in that cluster. It adds a pool that has a valid name
  -- that is not a default pool's, and a range of replicas or a count. Or, only where the plan's name
  -- is a default pool's, it patches the planned pool in the plan's cluster, with the pool's identifier
  -- in the body and a range or a count and not both, or is allowed to an upgrade of that pool from the
  -- version of some state of it to the plan's, as for upgrade_machine_pool-AllAllowed, which leaves
  -- open what policies are deleted.
  pub create_hcp-AllCreating :
      (plan : HcpMachinePoolState) (h : History)
      → SeesFields env.is_empty
      → Adds (IsCreating env plan) h (create env plan h).1
  unfolding create
  create_hcp-AllCreating plan h sees = (IsCreating-Ensures plan h sees).0

  responded-Reports :
      (plan state : HcpMachinePoolState)
      (r : Result (List Diagnostic) (Response HcpMachinePoolState))
      → OnOk (ReportsNew plan) r
      → (respond r).state ≡ saved state
      → ReportsNew plan (respond r)
  responded-Reports plan state (ok r) reports saves = reports
  responded-Reports plan state (err ds) reports saves = cc

  -- A create of a pool with another name than the default pools' that saves a state reports an error
  -- exactly when the plan enables autoscaling and gives a number of replicas too.
  pub create_hcp_reports :
      (plan state : HcpMachinePoolState) (h : History)
      → SeesFields env.is_empty
      → is_standard_name (codes (value_string plan.name)) ≡ false
      → (create env plan h).0.state ≡ saved state
      → has_error (create env plan h).0.diagnostics
        ≡ gives_both plan.auto_scaling (has_value plan.replicas)
  unfolding create
  create_hcp_reports plan state h sees other saves =
      responded-Reports plan state (do_create env plan h).0 (IsCreating-Ensures plan h sees).1 saves
        other
