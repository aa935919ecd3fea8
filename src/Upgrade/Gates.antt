-- ===== src/Upgrade/Gates.antt =====
-- CheckMissingAgreements and AckVersionGate of classic/upgrade/cluster_upgrade.go, and
-- getOcmVersionMinor and scheduleUpgrade of cluster_rosa_classic_resource.go.
pub mod Laws
use Prim.Native.String
use terraform_provider_ocm.Prelude.{
  ℕ, ◌+◌, String, Bool, true, false, not, ◌&&◌, ◌==◌, Option, none, some, List, [], ◌∷◌,
  if◌then◌else◌, Result, ok, err, any, split_at,
}
use terraform_provider_ocm.Client.{some_or_fail, fail_unless, pure, send, and_then, ◌>>=◌, ◌>>◌}
use terraform_provider_ocm.Upgrade.{
  PoliciesClient, cluster_of, Gate, DryRun, accepted, unanswered, refused, Request, dry_run,
  ack_gate, add_policy, History, Env, UpgradeError, agreements_failed, acks_missing, ack_failed,
  policy_not_built, schedule_failed, index_out_of_range, Action, fail, ten_minutes,
}

-- Whether the list begins with a gate without an identifier.
unfoldable pub is_invalid : List Gate → Bool
is_invalid [] = false
is_invalid (gate ∷ gates) = gate.id == ""

-- The gates that a refusal of the dry run lists. A failure without an answer of the API has none.
unfoldable pub missing_gates : DryRun → Action (List Gate)
unfolding is_invalid
missing_gates accepted = pure []
missing_gates unanswered = pure []
missing_gates (refused none) = fail agreements_failed
missing_gates (refused (some gates)) =
    if is_invalid gates then fail agreements_failed else pure gates

-- Whether a gate is not only for STS clusters.
unfoldable pub ack_required : List Gate → Bool
ack_required gates = any (λ gate. not gate.sts_only) gates

-- The first two parts; `none` where the index is out of range.
unfoldable pub two_parts : List String → Option String
two_parts [] = none
two_parts (major ∷ []) = none
two_parts (major ∷ minor ∷ rest) = some (String.◌++◌ major (String.◌++◌ "." minor))

module _ {V : Type 0} (env : Env V) where
  open env use {semver, api, now, can_build_policy, can_build_agreement}

  unfoldable pub get_ocm_version_minor : String → Option String
  unfolding two_parts
  get_ocm_version_minor ver = elim (semver.parse ver) [
    | some v ↦ some (semver.minor v)
    | none ↦ two_parts (split_at b'.' ver)
  ]

  unfoldable pub check_missing_agreements : String → PoliciesClient → Action (List Gate)
  unfolding missing_gates
  check_missing_agreements version client = do
    fail_unless (can_build_policy version) agreements_failed
    reply ← send (dry_run client version) (λ h. api.on_dry_run h client version)
    missing_gates reply

  unfoldable pub ack_version_gate : String → String → Action (Unit {0})
  ack_version_gate cluster_id gate_id = do
    fail_unless (can_build_agreement gate_id) ack_failed
    acked ← send (ack_gate cluster_id gate_id) (λ h. api.on_ack_gate h cluster_id gate_id)
    fail_unless acked ack_failed

  unfoldable pub ack_all : String → List Gate → Action (Unit {0})
  ack_all cluster_id [] = pure tt
  ack_all cluster_id (gate ∷ gates) = do
    ack_version_gate cluster_id gate.id
    ack_all cluster_id gates

  -- The new policy, ten minutes from now.
  unfoldable pub add_upgrade : PoliciesClient → String → Action (Unit {0})
  add_upgrade client version h =
      let next_run = now h + ten_minutes in
      (do
        fail_unless (can_build_policy version) policy_not_built
        added ←
            send (add_policy client version next_run)
              (λ h. api.on_add_policy h client version next_run)
        fail_unless added schedule_failed)
        h

  unfoldable pub schedule_upgrade : PoliciesClient → V → String → Action (Unit {0})
  schedule_upgrade client desired user_ack = do
    gates ← check_missing_agreements (semver.text desired) client
    minor ← some_or_fail (get_ocm_version_minor (semver.text desired)) index_out_of_range
    fail_unless (not (ack_required gates && not (user_ack == minor))) acks_missing
    ack_all (cluster_of client) gates
    add_upgrade client (semver.text desired)
