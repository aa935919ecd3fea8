-- ===== src/Samples/Upgrades.antt =====
-- Versions that are two numbers and an API with one pending upgrade, for the tests.
use terraform_provider_ocm.Prelude.{
  String, true, false, ◌==◌, Option, none, some, [], ◌∷◌, ℕ, ◌-◌, nat_eq, ltb, if◌then◌else◌,
}
use terraform_provider_ocm.Upgrade.{
  Semver, PoliciesClient, pending, Policy, VersionInfo, Gate, refused, Api, Env,
}
use terraform_provider_ocm.Client.Paging.Laws.{page_of}

-- The versions that the tests name, by their minor numbers.
abbrev pub parse : String → Option ℕ
parse s =
    if s == "4.14.0"
    then some 14
    else if s == "4.15.0"
    then some 15
    else if s == "4.16.0"
    then some 16
    else none

abbrev pub text : ℕ → String
text v = if nat_eq v 14 then "4.14.0" else if nat_eq v 15 then "4.15.0" else "4.16.0"

abbrev pub minor : ℕ → String
minor v = if nat_eq v 14 then "4.14" else if nat_eq v 15 then "4.15" else "4.16"

abbrev pub semver : Semver ℕ
semver = record {
  parse = parse;
  equal = nat_eq;
  greater_than = λ a b. ltb b a;
  text = text;
  minor = minor;
}

-- A pending upgrade to another version than is asked for.
abbrev pub pending_of : PoliciesClient → Policy
pending_of owner = record {
  id = "p1";
  owner = owner;
  of_this_type = true;
  version = "4.16.0";
  next_run = 5;
}

abbrev pub gate : Gate
gate = record { id = "g1"; sts_only = false }

abbrev pub version_info : String → VersionInfo
version_info id = record {
  raw_id = id;
  rosa_enabled = true;
  hosted_enabled = true;
  channel_group = "stable";
  available_upgrades = "4.15.0" ∷ [];
}

abbrev pub api : Api
api = record {
  on_get_cluster_version =
      λ h id. some (record { channel_group = "stable"; available_upgrades = "4.15.0" ∷ [] });
  on_get_pool_version = λ h id pid. some ("4.15.0" ∷ []);
  on_get_version = λ h id. some (version_info id);
  on_list_policies = λ h cid page. some (page_of (pending_of cid ∷ []) (page - 1));
  on_policy_state = λ h cid pid. some pending;
  on_delete_policy = λ h cid pid. true;
  on_dry_run = λ h cid version. refused (some (gate ∷ []));
  on_ack_gate = λ h cid gate_id. true;
  on_add_policy = λ h cid version t. true;
}

abbrev pub env : Env ℕ
env = record {
  semver = semver;
  api = api;
  now = λ h. 1000;
  default_channel_group = "stable";
  create_version_id = λ version channel_group. version;
  can_build_policy = λ version. true;
  can_build_agreement = λ id. true;
}
