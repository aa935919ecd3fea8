-- ===== src/MachinePool/Scaling/Laws.antt =====
-- What the scaling settings of a plan become.
use terraform_provider_ocm.Prelude.{
  String, Bool, true, false, ◌==◌, eq_iff, Option, none, some, List, [], ◌∷◌, ℤ, nat_eq, length,
  ◌≡◌, ◌↔◌, refl, arith, Bool-cases, inl, inr, OnOk,
}
use terraform_provider_ocm.Common.Attribute.{
  Value, null, unknown, known, has_value, value_int64, value_eq,
}
use terraform_provider_ocm.MachinePool.State.{Taints, MachinePoolState, Autoscaling, MachinePool}
use terraform_provider_ocm.MachinePool.Scaling.{
  get_autoscaling, taint_eq, some_taint_differs, should_patch_taints,
}

-- What the client library documents of `Empty`: an object with a field that was set is not empty.
abbrev pub SeesFields : (Autoscaling → Bool) → Type 0
SeesFields is_empty = (a : Autoscaling) (n : ℤ) → a.max_replicas ≡ some n → is_empty a ≡ false

-- The builder `b'` and the answer `enabled` for the state and a builder `b` before.
pub record IsScaled (state : MachinePoolState) (b : MachinePool) (enabled : Bool) (b' : MachinePool)
    : Type 0 where
  pub ranged :
      enabled ≡ true
      → b' ≡ record b {
        autoscaling = some (record {
          min_replicas = some (value_int64 state.min_replicas);
          max_replicas = some (value_int64 state.max_replicas);
        });
      }
  pub has_min : has_value state.min_replicas ≡ enabled
  pub has_max : has_value state.max_replicas ≡ enabled
  pub asked : (state.autoscaling_enabled ≡ known true) ↔ (enabled ≡ true)
  pub untouched : enabled ≡ false → b' ≡ b

-- An accepted plan has a minimum and a maximum of replicas exactly if it enables autoscaling, which
-- is what the answer says; the builder gets that range, and is left alone otherwise.
pub get_autoscaling-IsScaled :
    (is_empty : Autoscaling → Bool) (state : MachinePoolState) (b : MachinePool)
    → SeesFields is_empty
    → OnOk (λ r. IsScaled state b r.0 r.1) (get_autoscaling is_empty state b)
unfolding get_autoscaling
get_autoscaling-IsScaled is_empty state b sees = ground (
  arith,
  sees
      (record {
        min_replicas = some (value_int64 state.min_replicas);
        max_replicas = some (value_int64 state.max_replicas);
      })
      (value_int64 state.max_replicas) refl,
)

string_value_eq_iff : (v w : Value String) → (value_eq ◌==◌ v w ≡ true) ↔ (v ≡ w)
string_value_eq_iff null null = ground arith
string_value_eq_iff null unknown = ground arith
string_value_eq_iff null (known b) = ground arith
string_value_eq_iff unknown null = ground arith
string_value_eq_iff unknown unknown = ground arith
string_value_eq_iff unknown (known b) = ground arith
string_value_eq_iff (known a) null = ground arith
string_value_eq_iff (known a) unknown = ground arith
string_value_eq_iff (known a) (known b) = ground (arith, eq_iff a b)

taint_eq_iff : (a b : Taints) → (taint_eq a b ≡ true) ↔ (a ≡ b)
unfolding taint_eq
taint_eq_iff a b = ground (
  arith,
  string_value_eq_iff a.key b.key,
  string_value_eq_iff a.value b.value,
  string_value_eq_iff a.schedule_type b.schedule_type,
)

some_taint_differs_iff :
    (xs ys : List Taints) → length xs ≡ length ys → (some_taint_differs xs ys ≡ false) ↔ (xs ≡ ys)
unfolding some_taint_differs
some_taint_differs_iff [] [] e = ground arith
some_taint_differs_iff [] (y ∷ ys) e = absurd (omega arith)
some_taint_differs_iff (x ∷ xs) [] e = absurd (omega arith)
some_taint_differs_iff (x ∷ xs) (y ∷ ys) e =
    ground (arith, taint_eq_iff x y, some_taint_differs_iff xs ys (omega arith))

-- Taints are patched unless the plan's are the state's, item by item and in order; no taints at
-- all and an empty list of taints differ.
pub should_patch_taints_iff :
    (a b : Option (List Taints)) → (should_patch_taints a b ≡ false) ↔ (a ≡ b)
unfolding should_patch_taints
should_patch_taints_iff none none = ground arith
should_patch_taints_iff none (some bs) = ground arith
should_patch_taints_iff (some xs) none = ground arith
should_patch_taints_iff (some xs) (some bs) = elim (Bool-cases (nat_eq (length xs) (length bs))) [
  | inl same ↦ rw same (ground (arith, some_taint_differs_iff xs bs (ground arith)))
  | inr other ↦ rw other (λ h. cc, λ e. ground arith)
]
