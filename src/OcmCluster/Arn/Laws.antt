-- ===== src/OcmCluster/Arn/Laws.antt =====
-- The texts that the pattern of a private hosted zone role matches.
use mathlib.Core.Path.{subst}
use terraform_provider_ocm.Prelude.{
  ℕ, zero, suc, ◌≡◌, ◌↔◌, refl, ap, String, Bool, true, false, not, ◌&&◌, ◌||◌, some, List, [], ◌∷◌,
  ◌++◌, nat_eq, all, length, codes, Bool-cases, Option-cases, inl, inr, arith,
}
use terraform_provider_ocm.OcmCluster.Arn.{
  is_digit, is_name, ends_in_name, after_runes, after_digits, matches_between,
  matches_private_hosted_zone_role_arn,
}

after_runes_iff : (p s r : List ℕ) → (after_runes p s ≡ some r) ↔ (s ≡ p ++ r)
unfolding after_runes
after_runes_iff [] s r = ground arith
after_runes_iff (x ∷ p) [] r = ground arith
after_runes_iff (x ∷ p) (y ∷ s) r = ground (arith, after_runes_iff p s r)

-- So many digits, and what follows them.
abbrev StartsWithDigits : ℕ → List ℕ → List ℕ → Type 0
StartsWithDigits n s r = (d : List ℕ) × (s ≡ d ++ r) × (length d ≡ n) × (all is_digit d ≡ true)

one_more_digit :
    (y n : ℕ) (s r : List ℕ)
    → is_digit y ≡ true
    → StartsWithDigits n s r
    → StartsWithDigits (suc n) (y ∷ s) r
one_more_digit y n s r digit (d, same, size, digits) =
    (y ∷ d, ap (λ t. y ∷ t) same, ap suc size, rw (digit, digits) refl)

after_digits_sound : (n : ℕ) (s r : List ℕ) → after_digits n s ≡ some r → StartsWithDigits n s r
unfolding after_digits
after_digits_sound zero s r e = ([], ground arith, refl, refl)
after_digits_sound (suc n) [] r e = absurd (ground arith)
after_digits_sound (suc n) (y ∷ s) r e =
    let digit : is_digit y ≡ true = ground arith in
    let later : after_digits n s ≡ some r = ground arith in
    one_more_digit y n s r digit (after_digits_sound n s r later)

after_digits_complete :
    (d r : List ℕ) → all is_digit d ≡ true → after_digits (length d) (d ++ r) ≡ some r
unfolding after_digits
after_digits_complete [] r digits = refl
after_digits_complete (y ∷ d) r digits =
    let first : is_digit y ≡ true = ground arith in
    let later : all is_digit d ≡ true = ground arith in
    rw (first, after_digits_complete d r later) refl

-- Anything without a line break, a slash and a name.
abbrev EndsInName : List ℕ → Type 0
EndsInName s =
    (m : List ℕ) × (n : List ℕ) × (s ≡ m ++ (b'/' ∷ n))
    × (all (λ rune. not (nat_eq rune 10)) m ≡ true)
    × (is_name n ≡ true)

one_more_rune : (y : ℕ) (s : List ℕ) → nat_eq y 10 ≡ false → EndsInName s → EndsInName (y ∷ s)
one_more_rune y s free (m, n, same, all_free, name) =
    (y ∷ m, n, ap (λ t. y ∷ t) same, rw (free, all_free) refl, name)

ends_in_name_sound : (s : List ℕ) → ends_in_name s ≡ true → EndsInName s
unfolding ends_in_name
ends_in_name_sound [] e = absurd (ground arith)
ends_in_name_sound (y ∷ s) e = elim (Bool-cases (nat_eq y b'/' && is_name s)) [
  | inl here ↦
      let slash : y ≡ b'/' = ground arith in
      let name : is_name s ≡ true = ground arith in ([], s, ap (λ c. c ∷ s) slash, refl, name)
  | inr there ↦
      let free : nat_eq y 10 ≡ false = ground arith in
      let later : ends_in_name s ≡ true = ground arith in
      one_more_rune y s free (ends_in_name_sound s later)
]

or_true : (b : Bool) → (b || true) ≡ true
or_true true = refl
or_true false = refl

ends_in_name_complete :
    (m n : List ℕ)
    → all (λ rune. not (nat_eq rune 10)) m ≡ true
    → is_name n ≡ true
    → ends_in_name (m ++ (b'/' ∷ n)) ≡ true
unfolding ends_in_name
ends_in_name_complete [] n free name = rw name refl
ends_in_name_complete (y ∷ m) n free name =
    let later : all (λ rune. not (nat_eq rune 10)) m ≡ true = ground arith in
    let first : nat_eq y 10 ≡ false = ground arith in
    rw (first, ends_in_name_complete m n later name) (or_true _)

-- So many digits between two texts, then anything without a line break, a slash, and a name of 1 to
-- 64 runes.
abbrev pub IsRole : List ℕ → ℕ → List ℕ → List ℕ → Type 0
IsRole before count after runes =
    (d : List ℕ) × (m : List ℕ) × (n : List ℕ) × (runes
      ≡ before ++ (d ++ (after ++ (m ++ (b'/' ∷ n)))))
    × (length d ≡ count)
    × (all is_digit d ≡ true)
    × (all (λ rune. not (nat_eq rune 10)) m ≡ true)
    × (is_name n ≡ true)

matches_sound :
    (before : List ℕ) (count : ℕ) (after runes : List ℕ)
    → matches_between before count after runes ≡ true
    → IsRole before count after runes
unfolding matches_between
matches_sound before count after runes e = elim (Option-cases (after_runes before runes)) [
  | inl missing ↦ absurd (ground arith)
  | inr (s, at_s) ↦ elim (Option-cases (after_digits count s)) [
    | inl missing ↦ absurd (ground arith)
    | inr (t, at_t) ↦ elim (Option-cases (after_runes after t)) [
      | inl missing ↦ absurd (ground arith)
      | inr (tail, at_tail) ↦
          let (d, at_d, size, digits) = after_digits_sound count s t at_t in
          let named : ends_in_name tail ≡ true = ground arith in
          let (m, n, at_m, free, name) = ends_in_name_sound tail named in
          (
            d,
            m,
            n,
            cc ((after_runes_iff before runes s).0 at_s, (after_runes_iff after t tail).0 at_tail),
            size,
            digits,
            free,
            name,
          )
    ]
  ]
]

matches_complete :
    (before : List ℕ) (count : ℕ) (after runes : List ℕ)
    → IsRole before count after runes
    → matches_between before count after runes ≡ true
unfolding matches_between
matches_complete before count after runes (d, m, n, same, size, digits, free, name) =
    let tail = m ++ (b'/' ∷ n) in
    let first : after_runes before runes ≡ some (d ++ (after ++ tail)) =
      (after_runes_iff before runes (d ++ (after ++ tail))).1 same in
    let twelve : after_digits count (d ++ (after ++ tail)) ≡ some (after ++ tail) =
      subst (λ k. after_digits k (d ++ (after ++ tail)) ≡ some (after ++ tail)) size
        (after_digits_complete d (after ++ tail) digits) in
    let last : after_runes after (after ++ tail) ≡ some tail =
      (after_runes_iff after (after ++ tail) tail).1 refl in
    rw (matches_between, first, twelve, last) (ends_in_name_complete m n free name)

-- The pattern matches exactly the texts `arn:aws:iam::<12 digits>:role<anything>/<name>`, where
-- `<anything>` has no line break and may be empty, and `<name>` has 1 to 64 runes of its class.
pub matches_private_hosted_zone_role_arn_iff :
    (arn : String)
    → (matches_private_hosted_zone_role_arn arn ≡ true)
      ↔ IsRole (codes "arn:aws:iam::") 12 (codes ":role") (codes arn)
unfolding matches_private_hosted_zone_role_arn
matches_private_hosted_zone_role_arn_iff arn = (
  matches_sound (codes "arn:aws:iam::") 12 (codes ":role") (codes arn),
  matches_complete (codes "arn:aws:iam::") 12 (codes ":role") (codes arn),
)
