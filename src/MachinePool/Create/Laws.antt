-- ===== src/MachinePool/Create/Laws.antt =====
-- What a create sends.
use terraform_provider_ocm.Prelude.{
  true, false, not, ◌==◌, ◌≡◌, Option, none, some, OnOk-anything, Option-cases, Bool-cases, inl,
  inr, ℤ, codes, arith,
}
use terraform_provider_ocm.Common.Attribute.{known, value_string, optional_int64}
use terraform_provider_ocm.Common.Response.{save}
use terraform_provider_ocm.Sdk.{Cluster, Reply, success, failure}
use terraform_provider_ocm.MachinePool.State.{MachinePoolState, MachinePool}
use terraform_provider_ocm.MachinePool.Scaling.Laws.{SeesFields}
use terraform_provider_ocm.MachinePool.Builder.{matches_name, default_machine_pool_name}
use terraform_provider_ocm.MachinePool.Builder.Laws.{IsBuilt, build_pool-IsBuilt}
use terraform_provider_ocm.MachinePool.Read.{PoolRead, pool_not_found, pool_state}
use terraform_provider_ocm.MachinePool.Read.Laws.{read_state-Ensures}
use terraform_provider_ocm.MachinePool.Update.{adjust_initial_state_to_plan}
use terraform_provider_ocm.MachinePool.Update.Laws.{do_update-Ensures}
use terraform_provider_ocm.MachinePool.Create.{
  initial_state, import_read, magic_import, cluster_or_return, check_size, built, create_new,
  create_in, await_cluster, do_create, create,
}
use terraform_provider_ocm.MachinePool.Requests.{
  IsSent-IsProper, IsScaledOnce, IsNamed, AllProper, Builds,
}
use terraform_provider_ocm.MachinePool.Server.{get_cluster, add_pool, History, Env, pure}
use terraform_provider_ocm.Handler.Logic.{
  Ensures, Any, pure-Ensures, lift-Ensures, send-Ensures, >>=-Ensures, >>-Ensures,
  fail_when-Ensures, fail_when-Any, body_or_fail-Ensures,
}

-- A body that may be added: named properly, and scaled once.
abbrev IsAddable : MachinePool → Type 0
IsAddable b = IsNamed b × IsScaledOnce b

module _ (env : Env) (sees : SeesFields env.is_empty) (builds : Builds env) where
  import_read-Ensures :
      (plan : MachinePoolState) (found : PoolRead)
      → Ensures AllProper (import_read env plan found) Any
  unfolding import_read
  import_read-Ensures plan pool_not_found = λ h p. (p, tt)
  import_read-Ensures plan (pool_state s) =
      do_update-Ensures env sees builds AllProper s plan
        (λ r sent h p. (IsSent-IsProper s plan r sent, p))

  magic_import-Ensures : (plan : MachinePoolState) → Ensures AllProper (magic_import env plan) Any
  unfolding magic_import
  magic_import-Ensures plan =
      let plan' : MachinePoolState = record plan { id = known (value_string plan.name) } in
      let state =
        adjust_initial_state_to_plan (initial_state plan.cluster (value_string plan.name)) plan' in
      >>=-Ensures AllProper Any Any _ _ (read_state-Ensures env state)
        (λ found u. import_read-Ensures plan' found)

  cluster_or_return-Ensures :
      (reply : Reply Cluster) → Ensures AllProper (cluster_or_return env reply) Any
  unfolding cluster_or_return
  cluster_or_return-Ensures (success found) h p = (p, tt)
  cluster_or_return-Ensures (failure status) h p = (p, tt)

  check_size-Ensures :
      (plan : MachinePoolState) (size : Option ℤ) → Ensures AllProper (check_size env plan size) Any
  unfolding check_size
  check_size-Ensures plan none = λ h p. (p, tt)
  check_size-Ensures plan (some size) =
      let cid = value_string plan.cluster in
      >>=-Ensures AllProper Any Any _ _
        (send-Ensures AllProper (get_cluster cid) (λ h. env.server.on_get_cluster h cid)
          (λ h p. (tt, p)))
        (λ reply u.
          >>=-Ensures AllProper Any Any _ _ (cluster_or_return-Ensures reply)
            (λ found e. fail_when-Any AllProper (not (env.disk_size_ok found.version size)) _ _))

  built-IsAddable :
      (b : MachinePool) → IsAddable b → Ensures AllProper (built (env.build b)) IsAddable
  unfolding built
  built-IsAddable b good = elim (Option-cases (env.build b)) [
    | inl failed ↦ rw failed (λ h p. (p, tt))
    | inr (p, e) ↦ rw (e, builds b p e) (pure-Ensures AllProper IsAddable b good)
  ]

  create_new-Ensures :
      (cluster : Cluster) (plan : MachinePoolState)
      → matches_name (codes (value_string plan.name)) ≡ true
      → (value_string plan.name == default_machine_pool_name) ≡ false
      → Ensures AllProper (create_new env cluster plan) Any
  unfolding create_new
  create_new-Ensures cluster plan proper not_default =
      let cid = value_string plan.cluster in
      >>-Ensures AllProper (Unit {0}) Any _ _
        (check_size-Ensures plan (optional_int64 plan.disk_size))
        (λ u.
          >>=-Ensures AllProper (IsBuilt cluster plan) Any _ _
            (lift-Ensures AllProper (IsBuilt cluster plan) _
              (build_pool-IsBuilt env sees cluster plan))
            (λ made is_built.
              >>=-Ensures AllProper IsAddable Any _ _
                (built-IsAddable made.0 (addable made is_built))
                (λ body good.
                  >>=-Ensures AllProper Any Any _ _
                    (send-Ensures AllProper (add_pool cid body)
                      (λ h. env.server.on_add_pool h cid body) (λ h p. (good, p)))
                    (λ reply v.
                      >>=-Ensures AllProper (λ (a : MachinePool). reply ≡ success a) Any _ _
                        (body_or_fail-Ensures AllProper reply _ _)
                        (λ object e. lift-Ensures AllProper Any _ (OnOk-anything _))))))
    where
      addable :
          (made : MachinePool × MachinePoolState) → IsBuilt cluster plan made → IsAddable made.0
      addable made is_built = (
        record { proper = rw is_built.named proper; not_default = rw is_built.named not_default },
        is_built.scaled,
      )

  create_in-Ensures :
      (cluster : Option Cluster) (plan : MachinePoolState)
      → matches_name (codes (value_string plan.name)) ≡ true
      → Ensures AllProper (create_in env cluster plan) Any
  unfolding create_in
  create_in-Ensures none plan proper = λ h p. (p, tt)
  create_in-Ensures (some cluster) plan proper =
      elim (Bool-cases (value_string plan.name == default_machine_pool_name)) [
        | inl default ↦ rw default (magic_import-Ensures plan)
        | inr other ↦ rw other (create_new-Ensures cluster plan proper other)
      ]

  do_create-Ensures : (plan : MachinePoolState) → Ensures AllProper (do_create env plan) Any
  unfolding do_create await_cluster
  do_create-Ensures plan =
      let misnamed = not (matches_name (codes (value_string plan.name))) in
      >>-Ensures AllProper (misnamed ≡ false) Any _ _ (fail_when-Ensures AllProper misnamed _ _)
        (λ e.
          >>=-Ensures AllProper Any Any (await_cluster env plan) _ (λ h p. (p, tt))
            (λ cluster u. create_in-Ensures cluster plan (ground arith)))

  -- Every request that a create adds to a history of proper requests is proper: a pool is added
  -- only under a name that matches the pattern and is not the default pool's, and an added or
  -- updated pool has either a range of replicas or a count, and never both or neither.
  pub create-AllProper :
      (plan : MachinePoolState) (h : History) → AllProper h → AllProper (create env plan h).1
  unfolding create
  create-AllProper plan h p =
      (>>=-Ensures AllProper Any Any (do_create env plan) (λ s. pure (save s))
        (do_create-Ensures plan) (λ s u h p. (p, tt)) h p).0
