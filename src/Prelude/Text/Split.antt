-- ===== src/Prelude/Text/Split.antt =====
-- Splitting a text at a character undoes joining.
use Prim.Native.Char.{Char, code}
use Prim.Native.String
use Prim.Native.String.{String}
use Prim.Native.Nat.{ℕ}
use mathlib.Core.Path.{◌≡◌, refl}
use mathlib.Core.Logic.{◌≢◌}
use mathlib.Core.List.{[], ◌∷◌}
use native.Mathlib.Omega.{arith}
use text.Mathlib.TextLemmas.{nil-append, cons-append}
use terraform_provider_ocm.Prelude.Text.{split_at}

-- No character of the text has this code.
abbrev pub Lacks : ℕ → String → Type 0
Lacks sep String.[] = Unit
Lacks sep (String.◌∷◌ c s) = (code c ≢ sep) × Lacks sep s

-- A text without the separator is one part.
pub split_at-Lacks : (sep : ℕ) (s : String) → Lacks sep s → split_at sep s ≡ s ∷ []
unfolding split_at
split_at-Lacks sep String.[] h = refl
split_at-Lacks sep (String.◌∷◌ c s) h = ground (arith, split_at-Lacks sep s h.1)

-- The part before a separator is split off.
pub split_at-append :
    (c : Char) (s t : String)
    → Lacks (code c) s
    → split_at (code c) (String.◌++◌ s (String.◌∷◌ c t)) ≡ s ∷ split_at (code c) t
unfolding split_at
split_at-append c String.[] t h = rw nil-append (ground arith)
split_at-append c (String.◌∷◌ d s) t h = rw cons-append (ground (arith, split_at-append c s t h.1))

-- A text joined from two parts splits into them.
pub split_at-joined :
    (c : Char) (s t : String)
    → Lacks (code c) s
    → Lacks (code c) t
    → split_at (code c) (String.◌++◌ s (String.◌++◌ (String.◌∷◌ c String.[]) t)) ≡ s ∷ t ∷ []
split_at-joined c s t hs ht =
    rw (cons-append, nil-append, split_at-append c s t hs, split_at-Lacks (code c) t ht) refl
