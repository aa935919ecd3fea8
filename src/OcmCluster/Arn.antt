-- ===== src/OcmCluster/Arn.antt =====
-- privateHostedZoneRoleArnRE of internal/ocm/resource/cluster.go over code points:
-- `^arn:aws:iam::\d{12}:role(?:(?:\/?.+\/?)?)(?:\/[0-9A-Za-z\\+\\.@_,-]{1,64})$`.
pub mod Laws
use terraform_provider_ocm.Prelude.{
  ℕ, zero, suc, ◌-◌, ◌≤◌, String, Bool, true, false, not, ◌&&◌, ◌||◌, Option, none, some, List, [],
  ◌∷◌, nat_eq, leb, ltb, all, any, length, codes, if◌then◌else◌,
}

abbrev pub is_digit : ℕ → Bool
is_digit rune = leb b'0' rune && leb rune b'9'

-- `[0-9A-Za-z\\+\\.@_,-]`, where the text is raw, so that the backslash is itself in the class.
abbrev is_name_rune : ℕ → Bool
is_name_rune rune =
    is_digit rune
    || (leb b'A' rune && leb rune b'Z')
    || (leb b'a' rune && leb rune b'z')
    || any (nat_eq rune) (codes "\\+.@_,-")

abbrev pub is_name : List ℕ → Bool
is_name runes = leb 1 (length runes) && leb (length runes) 64 && all is_name_rune runes

-- What follows `:role`: anything without a line break, or nothing, and then a slash and a name.
unfoldable pub ends_in_name : List ℕ → Bool
ends_in_name [] = false
ends_in_name (rune ∷ runes) =
    (nat_eq rune b'/' && is_name runes) || (not (nat_eq rune 10) && ends_in_name runes)

-- The runes after these, where they come first.
unfoldable pub after_runes : List ℕ → List ℕ → Option (List ℕ)
after_runes [] runes = some runes
after_runes (p ∷ prefix) [] = none
after_runes (p ∷ prefix) (rune ∷ runes) =
    let rest = after_runes prefix runes in if nat_eq p rune then rest else none

-- The runes after this many digits.
unfoldable pub after_digits : ℕ → List ℕ → Option (List ℕ)
after_digits zero runes = some runes
after_digits (suc n) [] = none
after_digits (suc n) (rune ∷ runes) =
    let rest = after_digits n runes in if is_digit rune then rest else none

-- The text before the digits, so many digits, the text after them, and the end.
unfoldable pub matches_between : List ℕ → ℕ → List ℕ → List ℕ → Bool
unfolding ends_in_name after_runes after_digits
matches_between before size after runes = elim (after_runes before runes) [
  | none ↦ false
  | some numbered ↦ elim (after_digits size numbered) [
    | none ↦ false
    | some rest ↦ elim (after_runes after rest) [ none ↦ false | some tail ↦ ends_in_name tail ]
  ]
]

unfoldable pub matches_private_hosted_zone_role_arn : String → Bool
unfolding matches_between
matches_private_hosted_zone_role_arn arn =
    matches_between (codes "arn:aws:iam::") 12 (codes ":role") (codes arn)
