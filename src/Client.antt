-- ===== src/Client.antt =====
-- Code that sends requests to the API: actions on the history of the requests sent so far, the
-- newest first, which may end with an error. An answer may depend on the whole history.
pub mod Logic
pub mod Paging
use terraform_provider_ocm.Prelude.{
  Bool, true, false, Option, none, some, List, ◌∷◌, Result, ok, err,
}

-- An action that sends requests in `R` and may end with an error in `E`.
abbrev pub Act {ℓ} : Type 0 → Type 0 → Type ℓ → Type ℓ
Act R E A = List R → Result E A × List R

module _ {R E : Type 0} where
  abbrev pub pure {ℓ} : {A : Type ℓ} → A → Act R E A
  pure a h = (ok a, h)

  abbrev pub lift {ℓ} : {A : Type ℓ} → Result E A → Act R E A
  lift r h = (r, h)

  -- One request and its answer.
  unfoldable pub send {ℓ} : {A : Type ℓ} → R → (List R → A) → Act R E A
  send request answer h = (ok (answer h), request ∷ h)

  -- The value, or this error.
  abbrev pub some_or_fail {ℓ} : {A : Type ℓ} → Option A → E → Act R E A
  some_or_fail (some a) e h = (ok a, h)
  some_or_fail none e h = (err e, h)

  abbrev pub fail_unless : Bool → E → Act R E (Unit {0})
  fail_unless true e h = (ok tt, h)
  fail_unless false e h = (err e, h)

  abbrev pub and_then {ℓ κ} : {A : Type ℓ} {B : Type κ} → Result E A → (A → Act R E B) → Act R E B
  and_then (ok a) f h = f a h
  and_then (err e) f h = (err e, h)

infixl 5 ◌>>=◌ ◌>>◌
abbrev pub ◌>>=◌ {ℓ κ} :
    {R E : Type 0} {A : Type ℓ} {B : Type κ} → Act R E A → (A → Act R E B) → Act R E B
◌>>=◌ m f h = let (r, h') = m h in and_then r f h'

abbrev pub ◌>>◌ {ℓ} : {R E : Type 0} {B : Type ℓ} → Act R E (Unit {0}) → Act R E B → Act R E B
m >> k = m >>= λ _. k
