-- ===== src/Sdk.antt =====
-- Objects of the OCM API with the fields that the provider reads, and the outcome of a request.
-- The client library is not part of the repository: its calls are parameters of the models.
use terraform_provider_ocm.Prelude.{
  ◌≡◌, ◌⊎◌, inl, inr, refl, ℕ, String, Bool, Option, none, some, List, ℤ, Dict, false, nat_eq,
}

-- The states that the code names (`ClusterStateReady` and so on), and any other text.
pub data ClusterState : Type 0 where
  ready error uninstalling : ClusterState
  other : String → ClusterState

pub record Cluster : Type 0 where
  pub id : String
  pub state : ClusterState
  pub compute : ℤ  -- Nodes().Compute()
  pub current_compute : ℤ  -- Status().CurrentCompute()
  pub multi_az : Bool
  pub availability_zones : List String  -- Nodes().AvailabilityZones()
  pub version : String  -- Version().RawID()
  pub channel_group : String  -- Version().ChannelGroup()
  pub aws_tags : Option (Dict String)  -- AWS().Tags(); `none` where AWS() is nil

-- `resp, err := request.Send()`: a body, or an error with the status of the response.
pub data Reply {ℓ} (A : Type ℓ) : Type ℓ where
  success : A → Reply A
  failure : ℕ → Reply A

-- `http.StatusNotFound`
abbrev pub not_found : ℕ
not_found = 404

-- `err != nil && resp.Status() == http.StatusNotFound`
abbrev pub is_missing {ℓ} : {A : Type ℓ} → Reply A → Bool
is_missing (success a) = false
is_missing (failure status) = nat_eq status not_found

-- `resp.Body()`, which is nil after an error.
abbrev pub body {ℓ} : {A : Type ℓ} → Reply A → Option A
body (success a) = some a
body (failure status) = none

pub Reply-cases {ℓ} :
    {A : Type ℓ} (reply : Reply A)
    → ((a : A) × (reply ≡ success a)) ⊎ ((status : ℕ) × (reply ≡ failure status))
Reply-cases (success a) = inl (a, refl)
Reply-cases (failure status) = inr (status, refl)
