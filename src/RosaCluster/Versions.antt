-- ===== src/RosaCluster/Versions.antt =====
-- getVersions, getVersionList and GetAndValidateVersionInChannelGroup of
-- provider/clusterrosa/common/types/cluster.go.
pub mod Laws
use Prim.Native.String.{◌++◌}
use terraform_provider_ocm.Prelude.{
  ℕ, String, Bool, true, false, ◌||◌, ◌==◌, Option, none, some, List, [], ◌∷◌, map, any,
  if◌then◌else◌,
}
use terraform_provider_ocm.Client.{Act, pure, fail_unless, ◌>>=◌, ◌>>◌}
use terraform_provider_ocm.Client.Paging.{Page, pages}
use terraform_provider_ocm.OcmCluster.{ClusterTopology, classic, hcp}

-- Of a version of the API, what is read.
pub record Version : Type 0 where
  pub raw_id : String

-- A page of the versions that this search finds.
pub data Request : Type 0 where
  list_versions : String → ℕ → Request

abbrev pub History : Type 0
History = List Request

pub record Env : Type 0 where
  pub on_list_versions : History → String → ℕ → Option (Page Version)
  pub sort_versions : List Version → List Version  -- `sort.Slice`, descending by semver

pub data VersionError : Type 0 where
  failed_to_retrieve could_not_find not_supported out_of_fuel : VersionError

abbrev pub Action {ℓ} : Type ℓ → Type ℓ
Action A = Act Request VersionError A

-- `strings.Join`
unfoldable pub join : String → List String → String
join separator [] = ""
join separator (s ∷ []) = s
join separator (s ∷ t ∷ rest) = s ++ separator ++ join separator (t ∷ rest)

unfoldable pub search_params : ClusterTopology → String → List String
search_params classic channel_group =
    "enabled = 'true'"
    ∷ "rosa_enabled = 'true'"
    ∷ ("channel_group = '" ++ channel_group ++ "'")
    ∷ []
search_params hcp channel_group =
    "enabled = 'true'"
    ∷ "rosa_enabled = 'true'"
    ∷ ("channel_group = '" ++ channel_group ++ "'")
    ∷ "hosted_control_plane_enabled = 'true'"
    ∷ []

unfoldable pub filter_of : ClusterTopology → String → String
filter_of topology channel_group = join " AND " (search_params topology channel_group)

-- The version that is asked for, or the first of the list.
unfoldable pub wanted_version : String → String → String
wanted_version first state_version = if state_version == "" then first else state_version

-- The loop over the list.
unfoldable pub is_listed : String → List String → Bool
is_listed version = any (λ v. v == version)

module _ (env : Env) where
  open env use {on_list_versions, sort_versions}

  unfoldable pub get_versions : ℕ → ClusterTopology → String → Action (List Version)
  get_versions fuel topology channel_group = do
    let filter = filter_of topology channel_group
    found ←
        pages (list_versions filter) (λ h page. on_list_versions h filter page) failed_to_retrieve
          out_of_fuel fuel 1
    pure (sort_versions found)

  unfoldable pub list_or_fail : List Version → Action (List String)
  list_or_fail [] = fail_unless false could_not_find >> pure []
  list_or_fail (v ∷ vs) = pure (map (λ v. v.raw_id) (v ∷ vs))

  unfoldable pub get_version_list : ℕ → ClusterTopology → String → Action (List String)
  get_version_list fuel topology channel_group = do
    found ← get_versions fuel topology channel_group
    list_or_fail found

  -- The list has a first version.
  unfoldable pub validate_version : String → List String → Action String
  validate_version state_version [] = fail_unless false could_not_find >> pure ""
  validate_version state_version (first ∷ rest) = do
    let version = wanted_version first state_version
    fail_unless (is_listed version (first ∷ rest)) not_supported
    pure version

  unfoldable pub get_and_validate_version_in_channel_group :
      ℕ → ClusterTopology → String → String → Action String
  get_and_validate_version_in_channel_group fuel topology state_channel_group state_version = do
    versions ← get_version_list fuel topology state_channel_group
    validate_version state_version versions
