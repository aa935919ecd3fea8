-- ===== src/Common/Response.antt =====
-- What a handler of a Terraform resource hands back: diagnostics, and what becomes of the state.
use terraform_provider_ocm.Prelude.{String, Bool, true, false, List, [], ◌∷◌, any}

-- The summary, and of the detail its fixed text or the attribute that it names.
pub data Diagnostic : Type 0 where
  error warning : String → String → Diagnostic

abbrev pub is_error : Diagnostic → Bool
is_error (error summary detail) = true
is_error (warning summary detail) = false

-- `HasError`
abbrev pub has_error : List Diagnostic → Bool
has_error = any is_error

-- `resp.State`: left as it was, set by `State.Set`, or cleared by `RemoveResource`.
pub data Saved {ℓ} (S : Type ℓ) : Type ℓ where
  unchanged removed : Saved S
  saved : S → Saved S

pub record Response {ℓ} (S : Type ℓ) : Type ℓ where
  pub diagnostics : List Diagnostic
  pub state : Saved S

module _ {ℓ} {S : Type ℓ} where
  -- A handler that returns after an error.
  abbrev pub refuse : String → String → Response S
  refuse summary detail = record { diagnostics = error summary detail ∷ []; state = unchanged }

  abbrev pub save : S → Response S
  save s = record { diagnostics = []; state = saved s }

  abbrev pub remove : Response S
  remove = record { diagnostics = []; state = removed }
