-- ===== src/Upgrade/Versions.antt =====
-- GetAvailableUpgradeVersions of classic/upgrade/cluster_upgrade.go and validateUpgrade of
-- cluster_rosa_classic_resource.go.
pub mod Laws
use terraform_provider_ocm.Prelude.{
  ℕ, String, Bool, true, false, Option, none, some, List, [], ◌∷◌, if◌then◌else◌, Result, ok, err,
  trim_prefix,
}
use terraform_provider_ocm.Common.Attribute.{Value, has_value, value_string}
use terraform_provider_ocm.Client.{
  some_or_fail, fail_unless, pure, lift, send, and_then, ◌>>=◌, ◌>>◌,
}
use terraform_provider_ocm.Upgrade.{
  VersionInfo, Request, get_version, History, Env, UpgradeError, version_information_failed,
  desired_version_not_parsed, available_version_not_parsed, not_available, Action, fail,
}

-- The attributes of the cluster's state that an upgrade reads or writes.
pub record ClusterRosaClassicState : Type 0 where
  pub id : Value String
  pub version : Value String
  pub current_version : Value String
  pub channel_group : Value String
  pub upgrade_acks_for : Value String

-- `rosa.VersionPrefix`
abbrev pub version_prefix : String
version_prefix = "openshift-v"

module _ {V : Type 0} (env : Env V) where
  open env use {semver, api, default_channel_group, create_version_id}

  unfoldable pub get_info : String → Action VersionInfo
  get_info id = do
    reply ← send (get_version id) (λ h. api.on_get_version h id)
    some_or_fail reply version_information_failed

  -- The versions of this channel group that pass the test.
  unfoldable pub versions_with :
      (VersionInfo → Bool) → String → List String → Action (List VersionInfo)
  versions_with enabled channel_group [] = pure []
  versions_with enabled channel_group (v ∷ vs) = do
    info ← get_info (create_version_id v channel_group)
    rest ← versions_with enabled channel_group vs
    pure (if enabled info then info ∷ rest else rest)

  unfoldable pub enabled_versions : String → List String → Action (List VersionInfo)
  enabled_versions = versions_with (λ info. info.rosa_enabled)

  unfoldable pub get_available_upgrade_versions : String → Action (List VersionInfo)
  get_available_upgrade_versions from_version_id = do
    info ← get_info from_version_id
    enabled_versions info.channel_group info.available_upgrades

  -- The search stops at the first version that is the desired one.
  unfoldable pub is_among : V → List VersionInfo → Result UpgradeError Bool
  is_among desired [] = ok false
  is_among desired (info ∷ infos) =
      let later = is_among desired infos in
      elim (semver.parse info.raw_id) [
        | none ↦ err available_version_not_parsed
        | some v ↦ if semver.equal desired v then ok true else later
      ]

  unfoldable pub channel_of : ClusterRosaClassicState → String
  channel_of state =
      if has_value state.channel_group
      then value_string state.channel_group
      else default_channel_group

  -- `semver.NewVersion` of the plan's version without the old prefix.
  unfoldable pub desired_version : ClusterRosaClassicState → Option V
  desired_version plan = semver.parse (trim_prefix (value_string plan.version) version_prefix)

  -- The desired version has to be one of these.
  unfoldable pub validate_in : Action (List VersionInfo) → Option V → Action (Unit {0})
  validate_in versions desired_text = do
    available ← versions
    desired ← some_or_fail desired_text desired_version_not_parsed
    found ← lift (is_among desired available)
    fail_unless found not_available

  unfoldable pub validate_upgrade :
      ClusterRosaClassicState → ClusterRosaClassicState → Action (Unit {0})
  unfolding validate_in
  validate_upgrade state plan =
      validate_in
        (get_available_upgrade_versions
          (create_version_id (value_string state.current_version) (channel_of state)))
        (desired_version plan)
