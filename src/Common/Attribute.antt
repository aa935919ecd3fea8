-- ===== src/Common/Attribute.antt =====
-- Terraform attribute values, as provider/common/helpers.go and tfconversions.go read them.
-- The plugin framework documents three states of a value, and that `ValueString` and its kin give
-- the zero value of the type where nothing is known.
use terraform_provider_ocm.Prelude.{
  String, Bool, true, false, not, ◌&&◌, ◌||◌, Option, none, some, List, [], map, ◌==◌, ℤ, pos,
  if◌then◌else◌, Dict,
}

pub data Value {ℓ} (A : Type ℓ) : Type ℓ where
  null unknown : Value A
  known : A → Value A

abbrev pub is_null {ℓ} : {A : Type ℓ} → Value A → Bool
is_null null = true
is_null unknown = false
is_null (known a) = false

abbrev pub is_unknown {ℓ} : {A : Type ℓ} → Value A → Bool
is_unknown null = false
is_unknown unknown = true
is_unknown (known a) = false

-- The value, or the zero value of its type.
abbrev pub value_or {ℓ} : {A : Type ℓ} → A → Value A → A
value_or zero_value null = zero_value
value_or zero_value unknown = zero_value
value_or zero_value (known a) = a

abbrev pub value_string : Value String → String
value_string = value_or ""

abbrev pub value_int64 : Value ℤ → ℤ
value_int64 = value_or (pos 0)

abbrev pub value_bool : Value Bool → Bool
value_bool = value_or false

-- `HasValue`
abbrev pub has_value {ℓ} : {A : Type ℓ} → Value A → Bool
has_value v = not (is_unknown v) && not (is_null v)

-- `Equal` of two values of one type.
abbrev pub value_eq {ℓ} : {A : Type ℓ} → (A → A → Bool) → Value A → Value A → Bool
value_eq eq null null = true
value_eq eq unknown unknown = true
value_eq eq (known a) (known b) = eq a b
value_eq eq _ _ = false

-- `types.List` and `types.Map` of strings: an element is an attribute value itself.
abbrev pub TfList : Type 0
TfList = Value (List (Value String))

abbrev pub TfMap : Type 0
TfMap = Value (Dict (Value String))

-- `Elements()`: empty where nothing is known.
abbrev pub list_elements : TfList → List (Value String)
list_elements = value_or []

abbrev pub map_elements : TfMap → Dict (Value String)
map_elements = value_or []

unfoldable pub emptiable_string_to_string_type : String → Value String
emptiable_string_to_string_type s = if s == "" then null else known s

unfoldable pub is_string_attribute_unknown_or_empty : Value String → Bool
is_string_attribute_unknown_or_empty param =
    is_unknown param || is_null param || value_string param == ""

unfoldable pub is_string_attribute_known_and_empty : Value String → Bool
is_string_attribute_known_and_empty param =
    not (is_unknown param) && (is_null param || value_string param == "")

unfoldable pub bool_with_true_default : Value Bool → Bool
bool_with_true_default v = if has_value v then value_bool v else true

unfoldable pub bool_with_false_default : Value Bool → Bool
bool_with_false_default v = if has_value v then value_bool v else false

-- `nil` is `none`.
unfoldable pub optional_int64 : Value ℤ → Option ℤ
optional_int64 v = if has_value v then some (value_int64 v) else none

unfoldable pub optional_string : Value String → Option String
optional_string v = if has_value v then some (value_string v) else none

unfoldable pub optional_list : TfList → Option (List String)
optional_list v = if has_value v then some (map value_string (list_elements v)) else none
