-- ===== src/Handler.antt =====
-- Handlers of Terraform resources: actions on the history of their requests that may end with
-- diagnostics, which a handler returns with.
pub mod Logic
use terraform_provider_ocm.Prelude.{
  String, Bool, true, false, Option, none, some, List, [], ◌∷◌, ◌++◌, Result, ok, err,
}
use terraform_provider_ocm.Client.{Act}
pub use terraform_provider_ocm.Client.{pure, lift, and_then, ◌>>=◌, ◌>>◌}
unfoldable pub use terraform_provider_ocm.Client.{send}
use terraform_provider_ocm.Common.Response.{Diagnostic, error, Response, unchanged}
use terraform_provider_ocm.Sdk.{Reply, success, failure}

-- An action of a resource with requests in `R`.
abbrev pub Handling {ℓ} : Type 0 → Type ℓ → Type ℓ
Handling R A = Act R (List Diagnostic) A

module _ {R : Type 0} where
  -- An error diagnostic and an early return.
  abbrev pub fail {ℓ} : {A : Type ℓ} → String → String → Handling R A
  fail summary detail h = (err (error summary detail ∷ []), h)

  abbrev pub fail_when : Bool → String → String → Handling R (Unit {0})
  fail_when true summary detail = fail summary detail
  fail_when false summary detail = pure tt

  -- The body, or an error diagnostic.
  abbrev pub body_or_fail {ℓ} : {A : Type ℓ} → Reply A → String → String → Handling R A
  body_or_fail (success a) summary detail = pure a
  body_or_fail (failure status) summary detail = fail summary detail

  -- What `Build` gives, or an error diagnostic.
  abbrev pub built_or_fail {ℓ} : {A : Type ℓ} → Option A → String → String → Handling R A
  built_or_fail (some a) summary detail = pure a
  built_or_fail none summary detail = fail summary detail

  -- Diagnostics end a handler where there are any.
  abbrev pub none_or_fail : List Diagnostic → Handling R (Unit {0})
  none_or_fail [] h = (ok tt, h)
  none_or_fail (d ∷ ds) h = (err (d ∷ ds), h)

-- The same for a conversion or a validation.
abbrev pub ok_or_fail {ℓ κ} :
    {E : Type ℓ} {A : Type κ} → Result E A → String → String → Result (List Diagnostic) A
ok_or_fail (ok a) summary detail = ok a
ok_or_fail (err e) summary detail = err (error summary detail ∷ [])

-- The response of a handler that saves the resulting state.
abbrev pub respond {ℓ} : {S : Type ℓ} → Result (List Diagnostic) (Response S) → Response S
respond (ok r) = r
respond (err ds) = record { diagnostics = ds; state = unchanged }
