-- ===== src/MachinePool/Delete/Laws.antt =====
-- When a delete removes the state.
use terraform_provider_ocm.Prelude.{ℕ, true, false, ◌∷◌, ◌≡◌, ◌↔◌, ◌⊎◌, ◌≢◌, arith}
use terraform_provider_ocm.Common.Attribute.{known, value_string}
use terraform_provider_ocm.Common.Response.{has_error, removed}
use terraform_provider_ocm.Sdk.{Reply, success}
use terraform_provider_ocm.MachinePool.State.{MachinePoolState}
use terraform_provider_ocm.MachinePool.Server.{Request, list_pools, delete_pool, History, Env}
use terraform_provider_ocm.MachinePool.Delete.{delete}

module _ (env : Env) (state : MachinePoolState) (h : History) where
  -- What the API answered to the request, and to the count after it.
  abbrev deleted : Reply (Unit {0})
  deleted = env.server.on_delete_pool h (value_string state.cluster) (value_string state.id)

  abbrev counted : Reply ℕ
  counted =
      env.server.on_list_pools
        (delete_pool (value_string state.cluster) (value_string state.id) ∷ h)
        (value_string state.cluster)

  -- The reasons to remove the state.
  abbrev MayRemove : Type 0
  MayRemove =
      (deleted ≡ success tt) ⊎ (state.ignore_deletion_error ≡ known true) ⊎ (counted ≡ success 1)

  -- The state is removed exactly if the API deleted the pool, or errors are to be ignored, or the
  -- pool is the cluster's last; and it is removed exactly if no error is reported.
  pub delete-removes_iff :
      let r = (delete env state h).0 in
      ((r.state ≡ removed) ↔ MayRemove) × ((r.state ≡ removed) ↔ (has_error r.diagnostics ≡ false))
  unfolding delete
  delete-removes_iff = ground arith

  abbrev deletion : Request
  deletion = delete_pool (value_string state.cluster) (value_string state.id)

  -- The deletion is requested once; the pools are counted after it only if it failed and errors
  -- are not to be ignored, and no other request is sent.
  pub delete-requests :
      (((deleted ≡ success tt) ⊎ (state.ignore_deletion_error ≡ known true))
        × ((delete env state h).1 ≡ deletion ∷ h))
      ⊎ ((deleted ≢ success tt)
          × (state.ignore_deletion_error ≢ known true)
          × ((delete env state h).1 ≡ list_pools (value_string state.cluster) ∷ deletion ∷ h))
  unfolding delete
  delete-requests = ground arith
