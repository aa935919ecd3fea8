-- ===== src/HcpMachinePool/Scaling/Laws.antt =====
-- What the scaling settings of a plan become.
use terraform_provider_ocm.Prelude.{Bool, true, false, ◌&&◌, some, ℤ, ◌≡◌, refl, arith, OnOk}
use terraform_provider_ocm.Common.Attribute.{has_value, value_bool, value_int64}
use terraform_provider_ocm.HcpMachinePool.State.{AutoScaling, NodePoolAutoscaling, NodePool}
use terraform_provider_ocm.HcpMachinePool.Scaling.{get_autoscaling}

-- What the client library documents of `Empty`: an object with a field that was set is not empty.
abbrev pub SeesFields : (NodePoolAutoscaling → Bool) → Type 0
SeesFields is_empty =
    (a : NodePoolAutoscaling) (n : ℤ) → a.max_replica ≡ some n → is_empty a ≡ false

-- The builder `b'` and the answer `enabled` for the settings and a builder `b` before.
pub record IsScaled (scaling : AutoScaling) (b : NodePool) (enabled : Bool) (b' : NodePool)
    : Type 0 where
  pub ranged :
      enabled ≡ true
      → b' ≡ record b {
        autoscaling = some (record {
          min_replica = some (value_int64 scaling.min_replicas);
          max_replica = some (value_int64 scaling.max_replicas);
        });
      }
  pub has_min : has_value scaling.min_replicas ≡ enabled
  pub has_max : has_value scaling.max_replicas ≡ enabled
  pub asked : (has_value scaling.enabled && value_bool scaling.enabled) ≡ enabled
  pub untouched : enabled ≡ false → b' ≡ b

pub get_autoscaling-IsScaled :
    (is_empty : NodePoolAutoscaling → Bool) (scaling : AutoScaling) (b : NodePool)
    → SeesFields is_empty
    → OnOk (λ r. IsScaled scaling b r.0 r.1) (get_autoscaling is_empty scaling b)
unfolding get_autoscaling
get_autoscaling-IsScaled is_empty scaling b sees = ground (
  arith,
  sees
      (record {
        min_replica = some (value_int64 scaling.min_replicas);
        max_replica = some (value_int64 scaling.max_replicas);
      })
      (value_int64 scaling.max_replicas) refl,
)
