-- ===== src/Upgrade/Tests/Hosted.antt =====
-- Upgrades of a hosted control plane and of a node pool, and the theorems at them.
use terraform_provider_ocm.Prelude.{◌≡◌, refl, [], ◌∷◌, ok, ◌+◌, trim_prefix, split_at, take, drop}
use terraform_provider_ocm.Common.Attribute.{null, known, is_string_attribute_unknown_or_empty}
use terraform_provider_ocm.Client.Paging.{pages}
use terraform_provider_ocm.Client.{send}
use terraform_provider_ocm.Upgrade.Policies.{
  list_pages, fetch_state, fetch_states, get_scheduled_upgrades, cancel, check_one, check_all,
  check_and_cancel_upgrades,
}
use terraform_provider_ocm.Upgrade.Versions.{get_info, versions_with, is_among, validate_in}
use terraform_provider_ocm.Upgrade.Gates.{
  is_invalid, missing_gates, ack_required, two_parts, get_ocm_version_minor,
  check_missing_agreements, ack_version_gate, ack_all, add_upgrade, schedule_upgrade,
}
use terraform_provider_ocm.Upgrade.{
  PoliciesClient, node_pool_policies, get_version, get_cluster_version, get_pool_version,
  list_policies, get_policy_state, delete_policy, dry_run, ack_gate, add_policy, ten_minutes,
}
use terraform_provider_ocm.Upgrade.Hosted.{
  Versioned, fetch_cluster_version, hosted_versions, trimmed_version, validate_unless,
  schedule_when, upgrade_to, compare_versions, upgrade_if_needed, version_changed,
}
use terraform_provider_ocm.Upgrade.Hosted.NodePool
use terraform_provider_ocm.Upgrade.Hosted.Laws.{AllPoolAllowed, upgrade_machine_pool-AllAllowed}
use terraform_provider_ocm.Upgrade.Tests.{env}

abbrev current : Versioned
current = record {
  version = known "4.14.0";
  current_version = known "4.14.0";
  upgrade_acks_for = null;
}

abbrev wanted : Versioned
wanted = record {
  version = known "4.15.0";
  current_version = null;
  upgrade_acks_for = known "4.15";
}

-- The policies of the pool.
abbrev workers : PoliciesClient
workers = node_pool_policies "c1" "workers"

-- The pending upgrade to another version is cancelled, the gate is acknowledged, and the upgrade is
-- scheduled.
upgrades_pool : NodePool.upgrade_machine_pool_if_needed env 1 "c1" "workers" current wanted [] ≡ (
  ok (record {
    version = known "4.15.0";
    current_version = known "4.14.0";
    upgrade_acks_for = known "4.15";
  }),
  add_policy workers "4.15.0" (1000 + ten_minutes)
      ∷ ack_gate "c1" "g1"
      ∷ dry_run workers "4.15.0"
      ∷ delete_policy workers "p1"
      ∷ get_policy_state workers "p1"
      ∷ list_policies workers 1
      ∷ get_version "4.15.0"
      ∷ get_pool_version "c1" "workers"
      ∷ get_cluster_version "c1"
      ∷ [],
)
unfolding NodePool.upgrade_machine_pool_if_needed NodePool.get_available_upgrade_versions
    upgrade_if_needed is_string_attribute_unknown_or_empty compare_versions upgrade_to
    validate_unless validate_in fetch_cluster_version send hosted_versions versions_with get_info
    trimmed_version trim_prefix is_among get_scheduled_upgrades list_pages pages split_at ack_all
    ack_required ack_version_gate add_upgrade check_missing_agreements get_ocm_version_minor
    is_invalid missing_gates schedule_upgrade two_parts schedule_when version_changed cancel
    check_all check_and_cancel_upgrades check_one fetch_state fetch_states take drop
upgrades_pool = refl

upgrade_machine_pool-AllAllowed_example :
    AllPoolAllowed env "c1" "workers" current wanted
      (NodePool.upgrade_machine_pool_if_needed env 1 "c1" "workers" current wanted []).1
upgrade_machine_pool-AllAllowed_example =
    upgrade_machine_pool-AllAllowed env "c1" 1 "workers" current wanted [] tt
