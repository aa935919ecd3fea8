-- ===== src/Upgrade/Policies/Paging.antt =====
-- Listing the policies page by page.
use terraform_provider_ocm.Prelude.{ℕ, ◌*◌, ◌<◌, ◌≡◌, List, length, ok}
use terraform_provider_ocm.Client.Paging.{page_size}
use terraform_provider_ocm.Client.Paging.Laws
use terraform_provider_ocm.Upgrade.{
  PoliciesClient, Policy, list_policies, History, Env, list_failed, out_of_fuel, UpgradeError,
}
use terraform_provider_ocm.Upgrade.Policies.{list_pages}

module _ {V : Type 0} (env : Env V) (client : PoliciesClient) (policies : List Policy) where
  -- The API pages a list that does not change, from page 1 on.
  abbrev pub Serves : Type 0
  Serves =
      Laws.Serves {E = UpgradeError} (list_policies client)
        (λ h page. env.api.on_list_policies h client page) list_failed out_of_fuel policies

  -- With fuel for more policies than there are, the pages together hold all policies, in order.
  pub list_pages-all :
      Serves
      → (fuel : ℕ) (h : History) → length policies < fuel * page_size
      → (list_pages env client fuel 1 h).0 ≡ ok policies
  unfolding list_pages
  list_pages-all =
      Laws.pages-all (list_policies client) (λ h page. env.api.on_list_policies h client page)
        list_failed out_of_fuel policies
