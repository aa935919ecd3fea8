-- ===== src/Client/Paging.antt =====
-- Lists that the API serves page by page, and the loop over the pages that the clients of the
-- upgrade policies and of the versions have.
pub mod Laws
use terraform_provider_ocm.Prelude.{
  ℕ, zero, suc, ◌+◌, ltb, Option, none, some, List, [], ◌∷◌, ◌++◌, if◌then◌else◌, err,
}
use terraform_provider_ocm.Client.{Act, some_or_fail, pure, send, ◌>>=◌}

-- The items of an answer, and the size that it gives for them.
pub record Page (A : Type 0) : Type 0 where
  pub items : List A
  pub size : ℕ

abbrev pub page_size : ℕ
page_size = 100

-- The request for a page and its answer, and the errors of an answer and of the fuel.
module _ {R E A : Type 0} (request : ℕ → R) (answer : List R → ℕ → Option (Page A))
    (failed exhausted : E) where
  -- The pages from this one on, until one that is not full, on fuel.
  unfoldable pub pages : ℕ → ℕ → Act R E (List A)
  pages zero page h = (err exhausted, h)
  pages (suc fuel) page h =
      (do
        let following = pages fuel (page + 1)
        reply ← send (request page) (λ h. answer h page)
        found ← some_or_fail reply failed
        if ltb found.size page_size
            then pure found.items
            else (following >>= λ rest. pure (found.items ++ rest)))
        h
