-- ===== src/Common/Patch.antt =====
-- provider/common/helpers.go: what of a plan has to be sent as a patch.
use mathlib.Core.Bool.{beq}
use terraform_provider_ocm.Prelude.{
  String, Bool, true, false, not, ◌&&◌, ◌||◌, ◌≡◌, ◌≢◌, ◌↔◌, Option, none, some, if◌then◌else◌,
  ◌==◌, ℤ, pos, int_eq, all, list_eq, Dict, lookup, arith, eq_iff,
}
use terraform_provider_ocm.Common.Attribute.{
  Value, null, unknown, known, is_null, is_unknown, value_or, value_eq, TfList, TfMap,
  list_elements, map_elements,
}

-- The body that `ShouldPatchInt`, `ShouldPatchString` and `ShouldPatchBool` share: the equality
-- and the zero value of the type differ. `none` is `ok == false`.
should_patch {ℓ} : {A : Type ℓ} → (A → A → Bool) → A → Value A → Value A → Option A
should_patch eq zero_value state plan =
    if is_unknown plan || is_null plan
    then none
    else if is_unknown state || is_null state
    then some (value_or zero_value plan)
    else if not (eq (value_or zero_value plan) (value_or zero_value state))
    then some (value_or zero_value plan)
    else none

unfoldable pub should_patch_int : Value ℤ → Value ℤ → Option ℤ
unfolding should_patch
should_patch_int = should_patch int_eq (pos 0)

unfoldable pub should_patch_string : Value String → Value String → Option String
unfolding should_patch
should_patch_string = should_patch ◌==◌ ""

unfoldable pub should_patch_bool : Value Bool → Value Bool → Option Bool
unfolding should_patch
should_patch_bool = should_patch beq false

-- `reflect.DeepEqual` of two Go maps with distinct keys: each entry of one is found in the other.
abbrev pub string_value_eq : Value String → Value String → Bool
string_value_eq = value_eq ◌==◌

is_found : Dict (Value String) → String × Value String → Bool
is_found m (k, v) = elim (lookup k m) [ none ↦ false | some w ↦ string_value_eq v w ]

unfoldable pub map_eq : Dict (Value String) → Dict (Value String) → Bool
unfolding is_found lookup
map_eq m n = all (is_found n) m && all (is_found m) n

unfoldable pub should_patch_map : TfMap → TfMap → TfMap × Bool
unfolding map_eq
should_patch_map state plan = (plan, not (map_eq (map_elements state) (map_elements plan)))

unfoldable pub should_patch_list : TfList → TfList → TfList × Bool
should_patch_list state plan =
    (plan, not (list_eq string_value_eq (list_elements state) (list_elements plan)))

-- A value is patched exactly when the plan knows one that the state does not hold.
should_patch_lem {ℓ} :
    {A : Type ℓ} (eq : A → A → Bool) (zero_value : A)
    → ((a b : A) → (eq a b ≡ true) ↔ (a ≡ b))
    → (state plan : Value A) (v : A)
    → (should_patch eq zero_value state plan ≡ some v) ↔ ((plan ≡ known v) × (state ≢ known v))
unfolding should_patch
should_patch_lem eq z iff null null v = ground arith
should_patch_lem eq z iff unknown null v = ground arith
should_patch_lem eq z iff (known a) null v = ground arith
should_patch_lem eq z iff null unknown v = ground arith
should_patch_lem eq z iff unknown unknown v = ground arith
should_patch_lem eq z iff (known a) unknown v = ground arith
should_patch_lem eq z iff null (known b) v = ground arith
should_patch_lem eq z iff unknown (known b) v = ground arith
should_patch_lem eq z iff (known a) (known b) v = ground (arith, iff b a)

pub should_patch_string_iff :
    (state plan : Value String) (v : String)
    → (should_patch_string state plan ≡ some v) ↔ ((plan ≡ known v) × (state ≢ known v))
unfolding should_patch_string
should_patch_string_iff = should_patch_lem ◌==◌ "" eq_iff
