-- ===== src/HcpMachinePool/Delete.antt =====
-- Delete and countPools of provider/machinepool/hcp/machine_pool_resource.go.
use terraform_provider_ocm.Prelude.{ℕ, String, Bool, true, false, [], ◌∷◌, if◌then◌else◌, nat_eq}
use terraform_provider_ocm.Common.Attribute.{value_string, bool_with_false_default}
use terraform_provider_ocm.Common.Response.{warning, Response, removed, remove, refuse}
use terraform_provider_ocm.Sdk.{Reply, success, failure}
use terraform_provider_ocm.HcpMachinePool.State.{HcpMachinePoolState}
use terraform_provider_ocm.HcpMachinePool.Server.{list_pools, delete_pool, History, Env}

-- A deletion that failed, with the state removed all the same.
abbrev pub removed_with_warning : String → Response HcpMachinePoolState
removed_with_warning detail = record {
  diagnostics = warning "Cannot delete machine pool" detail ∷ [];
  state = removed;
}

-- `numPools == 1 && err2 == nil`
unfoldable pub is_last_pool : Reply ℕ → Bool
is_last_pool (success size) = nat_eq size 1
is_last_pool (failure status) = false

unfoldable pub after_count : Bool → Response HcpMachinePoolState
after_count true = removed_with_warning "last machine pool"
after_count false = refuse "Cannot delete machine pool" ""

module _ {V : Type 0} (env : Env V) where
  open env use {server}

  unfoldable pub after_delete :
      HcpMachinePoolState → Reply (Unit {0}) → History → Response HcpMachinePoolState × History
  unfolding bool_with_false_default is_last_pool after_count
  after_delete state (success done) h = (remove, h)
  after_delete state (failure status) h =
      let cid = value_string state.cluster in
      if bool_with_false_default state.ignore_deletion_error
      then (removed_with_warning "ignored", h)
      else (after_count (is_last_pool (server.on_list_pools h cid)), list_pools cid ∷ h)

  unfoldable pub delete : HcpMachinePoolState → History → Response HcpMachinePoolState × History
  unfolding after_delete
  delete state h =
      let cid = value_string state.cluster in
      let pid = value_string state.id in
      after_delete state (server.on_delete_pool h cid pid) (delete_pool cid pid ∷ h)
