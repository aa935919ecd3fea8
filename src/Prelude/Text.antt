-- ===== src/Prelude/Text.antt =====
-- Texts as lists of code points, and the splitting of a text at a character.
pub mod Split
use Prim.Native.Char.{Char, code}
use Prim.Native.String
use Prim.Native.String.{String}
use Prim.Native.Nat.{ℕ}
use mathlib.Core.Bool.{Bool, true, false}
use mathlib.Core.Option.{Option, none, some}
use mathlib.Core.List.{List, [], ◌∷◌, ◌++◌}
use terraform_provider_ocm.Prelude.Tests.{nat_eq, if◌then◌else◌}

-- What a regular expression or a loop over the runes of a text reads.
abbrev pub codes : String → List ℕ
codes (String.◌∷◌ first rest) = code first ∷ codes rest
codes String.[] = []

-- The character in front of the first part.
prepend_to_head : Char → List String → List String
prepend_to_head c [] = String.◌∷◌ c String.[] ∷ []
prepend_to_head c (part ∷ parts) = String.◌∷◌ c part ∷ parts

-- `strings.Split(s, sep)` at the one-character separator with this code.
unfoldable pub split_at : ℕ → String → List String
unfolding prepend_to_head
split_at sep String.[] = String.[] ∷ []
split_at sep (String.◌∷◌ c s) =
    if nat_eq (code c) sep then String.[] ∷ split_at sep s else prepend_to_head c (split_at sep s)

-- `strings.TrimPrefix(s, prefix)`: what follows the prefix, or `none` where it is none.
after_prefix : String → String → Option String
after_prefix s String.[] = some s
after_prefix String.[] (String.◌∷◌ p prefix) = none
after_prefix (String.◌∷◌ c s) (String.◌∷◌ p prefix) =
    let rest = after_prefix s prefix in if nat_eq (code c) (code p) then rest else none

unfoldable pub trim_prefix : String → String → String
unfolding after_prefix
trim_prefix s prefix = elim (after_prefix s prefix) [ none ↦ s | some rest ↦ rest ]
