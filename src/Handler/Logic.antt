-- ===== src/Handler/Logic.antt =====
-- Reasoning about the actions that end with diagnostics.
use terraform_provider_ocm.Prelude.{
  String, Bool, true, false, ◌≡◌, refl, Option, none, some, List, [], ◌∷◌, Result, ok, err, OnOk,
}
use terraform_provider_ocm.Common.Response.{Diagnostic}
use terraform_provider_ocm.Sdk.{Reply, success, failure}
use terraform_provider_ocm.Client.Logic
pub use terraform_provider_ocm.Client.Logic.{
  Ensures, Any, Adds, Adds-nothing, Adds-one, lift-Ensures, >>=-Ensures, >>-Ensures, if-Ensures,
  weaken-Ensures,
}
use terraform_provider_ocm.Handler.{
  pure, send, fail_when, body_or_fail, built_or_fail, none_or_fail, ok_or_fail,
}

pub OnOk-ok_or_fail :
    {E A : Type 0} (Q : A → Type 0) (r : Result E A) (summary detail : String)
    → OnOk Q r
    → OnOk Q (ok_or_fail r summary detail)
OnOk-ok_or_fail Q (ok a) summary detail q = q
OnOk-ok_or_fail Q (err e) summary detail q = tt

module _ {R : Type 0} (P : List R → Type 0) where
  pub pure-Ensures {ℓ} :
      {A : Type ℓ} (Q : A → Type 0) (a : A) → Q a → Ensures {E = List Diagnostic} P (pure a) Q
  pure-Ensures = Logic.pure-Ensures (List Diagnostic) P

  pub send-Ensures {ℓ} :
      {A : Type ℓ} (request : R) (answer : List R → A)
      → ((h : List R) → P h → P (request ∷ h))
      → Ensures {E = List Diagnostic} P (send request answer) Any
  send-Ensures = Logic.send-Ensures (List Diagnostic) P

  pub send-Answers :
      {A : Type 0} (request : R) (answer : List R → A)
      → ((h : List R) → P h → P (request ∷ h))
      → Ensures {E = List Diagnostic} P (send request answer) (λ a. (h : List R) × (answer h ≡ a))
  send-Answers = Logic.send-Answers (List Diagnostic) P

  pub fail_when-Ensures :
      (bad : Bool) (summary detail : String)
      → Ensures P (fail_when bad summary detail) (λ u. bad ≡ false)
  fail_when-Ensures true summary detail h p = (p, tt)
  fail_when-Ensures false summary detail h p = (p, refl)

  pub body_or_fail-Ensures :
      {A : Type 0} (reply : Reply A) (summary detail : String)
      → Ensures P (body_or_fail reply summary detail) (λ a. reply ≡ success a)
  body_or_fail-Ensures (success a) summary detail h p = (p, refl)
  body_or_fail-Ensures (failure status) summary detail h p = (p, tt)

  pub built_or_fail-Ensures :
      {A : Type 0} (made : Option A) (summary detail : String)
      → Ensures P (built_or_fail made summary detail) (λ a. made ≡ some a)
  built_or_fail-Ensures (some a) summary detail h p = (p, refl)
  built_or_fail-Ensures none summary detail h p = (p, tt)

  pub none_or_fail-Ensures : (ds : List Diagnostic) → Ensures P (none_or_fail ds) (λ u. ds ≡ [])
  none_or_fail-Ensures [] h p = (p, refl)
  none_or_fail-Ensures (d ∷ ds) h p = (p, tt)

  pub fail_when-Any :
      (bad : Bool) (summary detail : String) → Ensures P (fail_when bad summary detail) Any
  fail_when-Any true summary detail h p = (p, tt)
  fail_when-Any false summary detail h p = (p, tt)
