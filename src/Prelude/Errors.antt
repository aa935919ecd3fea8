-- ===== src/Prelude/Errors.antt =====
-- Go's `(value, error)` as a sum, with early return as bind.
use mathlib.Core.Path.{◌≡◌, refl, subst}
use mathlib.Core.Bool.{Bool, true, false}

pub data Result {ℓ κ} (E : Type ℓ) (A : Type κ) : Type (ℓ ⊔ κ) where
  ok : A → Result E A
  err : E → Result E A

-- Early return: an error ends the sequence.
infixl 5 ◌>>=◌ ◌>>◌
abbrev pub ◌>>=◌ {ℓ κ μ} :
    {E : Type ℓ} {A : Type κ} {B : Type μ} → Result E A → (A → Result E B) → Result E B
result >>= next = elim result [ err why ↦ err why | ok value ↦ next value ]

abbrev pub ◌>>◌ {ℓ κ} : {E : Type ℓ} {B : Type κ} → Result E (Unit {0}) → Result E B → Result E B
result >> rest = elim result [ err why ↦ err why | ok done ↦ rest ]

-- `if bad { return err }`
abbrev pub fail_if {ℓ} : {E : Type ℓ} → Bool → E → Result E (Unit {0})
fail_if true e = err e
fail_if false e = ok tt

abbrev pub is_ok {ℓ κ} : {E : Type ℓ} {A : Type κ} → Result E A → Bool
is_ok (ok a) = true
is_ok (err e) = false

-- What holds of every success.
abbrev pub OnOk {ℓ κ μ} : {E : Type ℓ} {A : Type κ} → (A → Type μ) → Result E A → Type μ
OnOk P (ok a) = P a
OnOk P (err e) = Unit

pub OnOk-ok {ℓ κ μ} :
    {E : Type ℓ} {A : Type κ} (P : A → Type μ) (m : Result E A) {a : A} → OnOk P m → m ≡ ok a → P a
OnOk-ok P (ok b) h e = subst P (cc) h
OnOk-ok P (err e') h e = cc

pub OnOk->>= {ℓ κ μ ν} :
    {E : Type ℓ} {A : Type κ} {B : Type μ} (P : A → Type ν) (Q : B → Type ν) (m : Result E A)
    (f : A → Result E B)
    → OnOk P m
    → ((a : A) → P a → OnOk Q (f a))
    → OnOk Q (m >>= f)
OnOk->>= P Q (ok a) f h k = k a h
OnOk->>= P Q (err e) f h k = tt

pub OnOk->> {ℓ κ μ ν} :
    {E : Type ℓ} {B : Type κ} (P : Type μ) (Q : B → Type ν) (m : Result E (Unit {0}))
    (k : Result E B)
    → OnOk (λ u. P) m
    → (P → OnOk Q k)
    → OnOk Q (m >> k)
OnOk->> P Q (ok u) k h next = next h
OnOk->> P Q (err e) k h next = tt

-- Nothing is asked of a success.
pub OnOk-anything {ℓ κ} : {E : Type ℓ} {A : Type κ} (m : Result E A) → OnOk (λ a. Unit {0}) m
OnOk-anything (ok a) = tt
OnOk-anything (err e) = tt

pub OnOk-intro {ℓ κ μ} :
    {E : Type ℓ} {A : Type κ} (P : A → Type μ) (m : Result E A)
    → ((a : A) → m ≡ ok a → P a)
    → OnOk P m
OnOk-intro P (ok a) h = h a refl
OnOk-intro P (err e) h = tt

pub OnOk-both {ℓ κ μ ν} :
    {E : Type ℓ} {A : Type κ} (P : A → Type μ) (Q : A → Type ν) (r : Result E A)
    → OnOk P r
    → OnOk Q r
    → OnOk (λ a. P a × Q a) r
OnOk-both P Q (err why) p q = tt
OnOk-both P Q (ok value) p q = (p, q)

-- What follows from the check not failing holds after it.
pub fail_if-implies {ℓ κ} :
    {E : Type ℓ} (bad : Bool) (why : E) (P : Type κ)
    → (bad ≡ false → P)
    → OnOk (λ u. P) (fail_if bad why)
fail_if-implies true why P next = tt
fail_if-implies false why P next = next refl

pub OnOk-weaken {ℓ κ μ ν} :
    {E : Type ℓ} {A : Type κ} (P : A → Type μ) (Q : A → Type ν) (r : Result E A)
    → ((a : A) → P a → Q a)
    → OnOk P r
    → OnOk Q r
OnOk-weaken P Q (ok value) implied holds = implied value holds
OnOk-weaken P Q (err why) implied holds = tt

-- A success with this property.
abbrev pub Succeeds {ℓ κ μ} :
    {E : Type ℓ} {A : Type κ} → (A → Type μ) → Result E A → Type (ℓ ⊔ κ ⊔ μ)
Succeeds {E = E} {A = A} P r = (a : A) × (r ≡ ok a) × P a

pub Succeeds->>= {ℓ κ μ ν} :
    {E : Type ℓ} {A : Type κ} {B : Type μ} (P : A → Type ν) (Q : B → Type ν) (r : Result E A)
    (next : A → Result E B)
    → Succeeds P r
    → ((a : A) → P a → Succeeds Q (next a))
    → Succeeds Q (r >>= next)
Succeeds->>= P Q (ok value) next (a, e, holds) following = following value (subst P (cc) holds)
Succeeds->>= P Q (err why) next (a, e, holds) following = cc
