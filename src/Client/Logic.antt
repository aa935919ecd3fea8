-- ===== src/Client/Logic.antt =====
-- Reasoning about actions: an invariant of the history, and what holds of a success.
use terraform_provider_ocm.Prelude.{
  if◌then◌else◌, Option, none, some, Bool, true, false, ◌≡◌, refl, ap, List, [], ◌∷◌, ◌++◌, All,
  Result, ok, err, OnOk-weaken, OnOk,
}
use terraform_provider_ocm.Client.{
  some_or_fail, fail_unless, Act, pure, lift, send, and_then, ◌>>=◌, ◌>>◌,
}

module _ {R E : Type 0} where
  -- From a history in `P` the action leads to one in `P`, and a success is in `Q`.
  abbrev pub Ensures {ℓ} : {A : Type ℓ} → (List R → Type 0) → Act R E A → (A → Type 0) → Type 0
  Ensures P m Q = (h : List R) → P h → P (m h).1 × OnOk Q (m h).0

module _ {R : Type 0} where
  -- The second history has these requests more than the first, and each of them is good.
  abbrev pub Adds : (R → Type 0) → List R → List R → Type 0
  Adds Good h h' = (sent : List R) × (h' ≡ sent ++ h) × All Good sent

  pub Adds-nothing : (Good : R → Type 0) (h : List R) → Adds Good h h
  Adds-nothing Good h = ([], refl, tt)

  pub Adds-one :
      (Good : R → Type 0) (h : List R) (r : R)
      → Good r
      → (h' : List R) → Adds Good h h'
      → Adds Good h (r ∷ h')
  Adds-one Good h r good h' (sent, e, all) = (r ∷ sent, ap (λ (t : List R). r ∷ t) e, (good, all))

-- Nothing is asked of a success.
abbrev pub Any {ℓ} : {A : Type ℓ} → A → Type 0
Any a = Unit

module _ {R : Type 0} (E : Type 0) (P : List R → Type 0) where
  pub pure-Ensures {ℓ} : {A : Type ℓ} (Q : A → Type 0) (a : A) → Q a → Ensures {E = E} P (pure a) Q
  pure-Ensures Q a q h p = (p, q)

  pub send-Ensures {ℓ} :
      {A : Type ℓ} (request : R) (answer : List R → A)
      → ((h : List R) → P h → P (request ∷ h))
      → Ensures {E = E} P (send request answer) Any
  unfolding send
  send-Ensures request answer keep h p = (keep h p, tt)

  -- The answer is one to some history.
  pub send-Answers :
      {A : Type 0} (request : R) (answer : List R → A)
      → ((h : List R) → P h → P (request ∷ h))
      → Ensures {E = E} P (send request answer) (λ a. (h : List R) × (answer h ≡ a))
  unfolding send
  send-Answers request answer keep h p = (keep h p, (h, refl))

module _ {R E : Type 0} (P : List R → Type 0) where
  pub lift-Ensures {ℓ} :
      {A : Type ℓ} (Q : A → Type 0) (r : Result E A) → OnOk Q r → Ensures P (lift r) Q
  lift-Ensures Q r q h p = (p, q)

  and_then-Ensures {ℓ κ} :
      {A : Type ℓ} {B : Type κ} (Q : A → Type 0) (S : B → Type 0) (r : Result E A)
      (f : A → Act R E B)
      → OnOk Q r
      → ((a : A) → Q a → Ensures P (f a) S)
      → (h : List R) → P h
      → P (and_then r f h).1 × OnOk S (and_then r f h).0
  and_then-Ensures Q S (ok a) f q next h p = next a q h p
  and_then-Ensures Q S (err e) f q next h p = (p, tt)

  pub >>=-Ensures {ℓ κ} :
      {A : Type ℓ} {B : Type κ} (Q : A → Type 0) (S : B → Type 0) (m : Act R E A)
      (f : A → Act R E B)
      → Ensures P m Q
      → ((a : A) → Q a → Ensures P (f a) S)
      → Ensures P (m >>= f) S
  >>=-Ensures Q S m f now next h p =
      and_then-Ensures Q S (m h).0 f (now h p).1 next (m h).1 (now h p).0

  pub >>-Ensures {ℓ} :
      {B : Type ℓ} (Q : Type 0) (S : B → Type 0) (m : Act R E (Unit {0})) (k : Act R E B)
      → Ensures P m (λ u. Q)
      → (Q → Ensures P k S)
      → Ensures P (m >> k) S
  >>-Ensures Q S m k now next = >>=-Ensures (λ u. Q) S m (λ u. k) now (λ u q. next q)

  -- What follows from what holds of a success holds of it.
  pub weaken-Ensures {ℓ} :
      {A : Type ℓ} (Q S : A → Type 0) (m : Act R E A)
      → ((a : A) → Q a → S a)
      → Ensures P m Q
      → Ensures P m S
  weaken-Ensures Q S m implied now h p =
      let (kept, q) = now h p in (kept, OnOk-weaken Q S (m h).0 implied q)

  pub some_or_fail-Ensures :
      {A : Type 0} (o : Option A) (e : E) → Ensures P (some_or_fail o e) (λ a. o ≡ some a)
  some_or_fail-Ensures (some a) e h p = (p, refl)
  some_or_fail-Ensures none e h p = (p, tt)

  pub fail_unless-Ensures :
      (good : Bool) (e : E) → Ensures P (fail_unless good e) (λ u. good ≡ true)
  fail_unless-Ensures true e h p = (p, refl)
  fail_unless-Ensures false e h p = (p, tt)

  pub if-Ensures {ℓ} :
      {A : Type ℓ} (Q : A → Type 0) (b : Bool) (m n : Act R E A)
      → Ensures P m Q
      → Ensures P n Q
      → Ensures P (if b then m else n) Q
  if-Ensures Q true m n now other = now
  if-Ensures Q false m n now other = other
