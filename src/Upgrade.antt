-- ===== src/Upgrade.antt =====
-- provider/clusterrosa/classic/upgrade/cluster_upgrade.go and the upgrades of
-- cluster_rosa_classic_resource.go: the API they call, and versions as go-version compares them.
pub mod Policies
pub mod Versions
pub mod Gates
pub mod Requests
pub mod Cluster
pub mod Hosted
mod Tests
use terraform_provider_ocm.Client.Paging.{Page}
use terraform_provider_ocm.Prelude.{ℕ, String, Bool, Option, List, Result, err}
use terraform_provider_ocm.Common.Attribute.{Value}
use terraform_provider_ocm.Client.{Act}

-- Versions of the package go-version.
pub record Semver (V : Type 0) : Type 0 where
  pub parse : String → Option V  -- `NewVersion`
  pub equal : V → V → Bool
  pub greater_than : V → V → Bool
  pub text : V → String  -- `String`
  pub minor : V → String  -- the first two of `Segments`, with a dot between them

-- `UpgradePolicyStateValue`
pub data PolicyState : Type 0 where
  delayed started pending scheduled : PolicyState
  other : String → PolicyState

-- `UpgradePolicies` of a cluster, of its hosted control plane, or of one of its node pools.
pub data PoliciesClient : Type 0 where
  cluster_policies control_plane_policies : String → PoliciesClient
  node_pool_policies : String → String → PoliciesClient

-- The cluster, whose gates are acknowledged.
abbrev pub cluster_of : PoliciesClient → String
cluster_of (cluster_policies cluster_id) = cluster_id
cluster_of (control_plane_policies cluster_id) = cluster_id
cluster_of (node_pool_policies cluster_id pool_id) = cluster_id

pub record Policy : Type 0 where
  pub id : String
  pub owner : PoliciesClient  -- that of the policy's ClusterID() and NodePoolID()
  pub of_this_type : Bool  -- whether UpgradeType() is that of what is upgraded
  pub version : String
  pub next_run : ℕ  -- in nanoseconds

pub record ClusterUpgrade : Type 0 where
  pub policy : Policy
  pub state : PolicyState

pub record VersionInfo : Type 0 where
  pub raw_id : String
  pub rosa_enabled : Bool
  pub hosted_enabled : Bool  -- HostedControlPlaneEnabled()
  pub channel_group : String
  pub available_upgrades : List String

-- What a cluster says of its version.
pub record ClusterVersion : Type 0 where
  pub channel_group : String
  pub available_upgrades : List String

pub record Gate : Type 0 where
  pub id : String
  pub sts_only : Bool

-- How a dry run of an upgrade policy ends: accepted, refused by the API with the gates that its
-- details list (`none` where they cannot be read), or failed without an answer of the API.
pub data DryRun : Type 0 where
  accepted unanswered : DryRun
  refused : Option (List Gate) → DryRun

-- The first string is the cluster's identifier, but for `get_version`, which has the version's.
pub data Request : Type 0 where
  get_version get_cluster_version : String → Request
  get_pool_version : String → String → Request
  ack_gate : String → String → Request
  list_policies : PoliciesClient → ℕ → Request
  get_policy_state delete_policy dry_run : PoliciesClient → String → Request
  add_policy : PoliciesClient → String → ℕ → Request

-- The newest request first.
abbrev pub History : Type 0
History = List Request

pub record Api : Type 0 where
  pub on_get_version : History → String → Option VersionInfo
  pub on_get_cluster_version : History → String → Option ClusterVersion
  pub on_get_pool_version : History → String → String → Option (List String)
  pub on_list_policies : History → PoliciesClient → ℕ → Option (Page Policy)
  pub on_policy_state : History → PoliciesClient → String → Option PolicyState
  pub on_delete_policy : History → PoliciesClient → String → Bool
  pub on_dry_run : History → PoliciesClient → String → DryRun
  pub on_ack_gate : History → String → String → Bool
  pub on_add_policy : History → PoliciesClient → String → ℕ → Bool

-- What the upgrades use and do not implement.
pub record Env (V : Type 0) : Type 0 where
  pub semver : Semver V
  pub api : Api
  pub now : History → ℕ  -- the clock, in nanoseconds
  pub default_channel_group : String
  pub create_version_id : String → String → String  -- by version and channel group
  pub can_build_policy : String → Bool  -- whether `Build` of a policy gives no error
  pub can_build_agreement : String → Bool

-- One constructor for each message, and two ends that are no error values of the source: a panic
-- and the model's fuel.
pub data UpgradeError : Type 0 where
  version_information_failed list_failed state_failed delete_failed : UpgradeError
  upgrade_version_not_parsed current_version_not_parsed desired_version_not_parsed : UpgradeError
  available_version_not_parsed not_available above_requested in_progress : UpgradeError
  agreements_failed acks_missing ack_failed policy_not_built schedule_failed : UpgradeError
  index_out_of_range out_of_fuel : UpgradeError

abbrev pub Action {ℓ} : Type ℓ → Type ℓ
Action A = Act Request UpgradeError A

abbrev pub fail {ℓ} : {A : Type ℓ} → UpgradeError → Action A
fail e h = (err e, h)

-- `time.Now().UTC().Add(10 * time.Minute)`
abbrev pub ten_minutes : ℕ
ten_minutes = 600_000_000_000
