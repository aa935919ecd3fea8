-- ===== src/Upgrade/Gates/Laws.antt =====
-- When an upgrade is scheduled: gates that have to be acknowledged, and the requests that are sent.
use terraform_provider_ocm.Prelude.{
  ◌≡◌, refl, String, Bool, true, false, not, ◌&&◌, ◌==◌, none, some, List, [], ◌∷◌, err, ℕ, ◌+◌,
  arith,
}
use terraform_provider_ocm.Client.{◌>>=◌, ◌>>◌, send, fail_unless}
use terraform_provider_ocm.Client.Logic.{
  Ensures, Any, >>=-Ensures, >>-Ensures, weaken-Ensures, some_or_fail-Ensures, send-Ensures,
  fail_unless-Ensures,
}
use terraform_provider_ocm.Upgrade.{
  PoliciesClient, cluster_of, Gate, DryRun, accepted, unanswered, refused, dry_run, ack_gate,
  add_policy, History, Env, UpgradeError, agreements_failed, acks_missing, ack_failed,
  policy_not_built, schedule_failed, index_out_of_range, ten_minutes,
}
use terraform_provider_ocm.Upgrade.Gates.{
  is_invalid, missing_gates, ack_required, get_ocm_version_minor, check_missing_agreements,
  ack_version_gate, ack_all, add_upgrade, schedule_upgrade,
}

module _ {V : Type 0} (env : Env V) (client : PoliciesClient) (desired : V) where
  abbrev version : String
  version = env.semver.text desired

  -- Where the dry run lists a gate that is not only for STS clusters, and the acknowledgement is not
  -- for the minor version, nothing is acknowledged and no policy is added: the dry run is the only
  -- request, and the error asks for the acknowledgement.
  pub schedule-unacked :
      (user_ack minor : String) (gates : List Gate) (h : History)
      → env.can_build_policy version ≡ true
      → env.api.on_dry_run h client version ≡ refused (some gates)
      → is_invalid gates ≡ false
      → ack_required gates ≡ true
      → get_ocm_version_minor env version ≡ some minor
      → user_ack == minor ≡ false
      → schedule_upgrade env client desired user_ack h
        ≡ (err acks_missing, dry_run client version ∷ h)
  unfolding schedule_upgrade check_missing_agreements missing_gates send
  schedule-unacked user_ack minor gates h buildable refusal valid required is_minor unacked =
      rw (buildable, refusal, valid, is_minor, required, unacked) refl

  adds :
      (h : History)
      → env.can_build_policy version ≡ true
      → (add_upgrade env client version h).1
        ≡ add_policy client version (env.now h + ten_minutes) ∷ h
  unfolding add_upgrade send
  adds h buildable = rw buildable (ground arith)

  -- A dry run that fails without an answer of the API counts as one that names no gates: the policy
  -- is added with nothing acknowledged.
  pub schedule-unanswered :
      (user_ack minor : String) (h : History)
      → env.can_build_policy version ≡ true
      → env.api.on_dry_run h client version ≡ unanswered
      → get_ocm_version_minor env version ≡ some minor
      → (schedule_upgrade env client desired user_ack h).1
        ≡ add_policy client version (env.now (dry_run client version ∷ h) + ten_minutes)
          ∷ dry_run client version
          ∷ h
  unfolding schedule_upgrade check_missing_agreements missing_gates ack_required ack_all add_upgrade
      send
  schedule-unanswered user_ack minor h buildable failed is_minor =
      rw (buildable, failed, is_minor) (adds (dry_run client version ∷ h) buildable)

  -- The requests of a schedule: a dry run, acknowledgements, and the policy.
  module _ (P : History → Type 0) (dry : (h : History) → P h → P (dry_run client version ∷ h))
      (ack : (gate : String) (h : History) → P h → P (ack_gate (cluster_of client) gate ∷ h))
      (add : (t : ℕ) (h : History) → P h → P (add_policy client version t ∷ h)) where
    missing_gates-Ensures : (reply : DryRun) → Ensures P (missing_gates reply) Any
    unfolding missing_gates
    missing_gates-Ensures accepted h p = (p, tt)
    missing_gates-Ensures unanswered h p = (p, tt)
    missing_gates-Ensures (refused none) h p = (p, tt)
    missing_gates-Ensures (refused (some gates)) h p = ground arith

    check_missing_agreements-Ensures : Ensures P (check_missing_agreements env version client) Any
    unfolding check_missing_agreements
    check_missing_agreements-Ensures =
        let ask = (λ (h : History). env.api.on_dry_run h client version) in
        >>-Ensures P (env.can_build_policy version ≡ true) Any _
          (send (dry_run client version) ask >>= (λ reply. missing_gates reply))
          (fail_unless-Ensures P (env.can_build_policy version) agreements_failed)
          (λ b.
            >>=-Ensures P (λ (r : DryRun). Unit {0}) Any _ _
              (send-Ensures UpgradeError P (dry_run client version) ask dry)
              (λ reply u. missing_gates-Ensures reply))

    ack_version_gate-Ensures :
        (gate : String) → Ensures P (ack_version_gate env (cluster_of client) gate) Any
    unfolding ack_version_gate
    ack_version_gate-Ensures gate =
        let ask = (λ (h : History). env.api.on_ack_gate h (cluster_of client) gate) in
        >>-Ensures P (env.can_build_agreement gate ≡ true) Any _
          (send (ack_gate (cluster_of client) gate) ask >>= (λ acked. fail_unless acked ack_failed))
          (fail_unless-Ensures P (env.can_build_agreement gate) ack_failed)
          (λ b.
            >>=-Ensures P (λ (r : Bool). Unit {0}) Any _ _
              (send-Ensures UpgradeError P (ack_gate (cluster_of client) gate) ask (ack gate))
              (λ acked u.
                weaken-Ensures P (λ v. acked ≡ true) Any _ (λ v e. tt)
                  (fail_unless-Ensures P acked ack_failed)))

    ack_all-Ensures : (gates : List Gate) → Ensures P (ack_all env (cluster_of client) gates) Any
    unfolding ack_all
    ack_all-Ensures [] = λ h p. (p, tt)
    ack_all-Ensures (gate ∷ gates) =
        >>-Ensures P Unit Any _ (ack_all env (cluster_of client) gates)
          (weaken-Ensures P Any (λ u. Unit {0}) _ (λ u v. tt) (ack_version_gate-Ensures gate.id))
          (λ u. ack_all-Ensures gates)

    add_upgrade-Ensures : Ensures P (add_upgrade env client version) Any
    unfolding add_upgrade
    add_upgrade-Ensures h p =
        let t = env.now h + ten_minutes in
        let ask = (λ (h : History). env.api.on_add_policy h client version t) in
        >>-Ensures P (env.can_build_policy version ≡ true) Any _
          (send (add_policy client version t) ask >>= (λ added. fail_unless added schedule_failed))
          (fail_unless-Ensures P (env.can_build_policy version) policy_not_built)
          (λ b.
            >>=-Ensures P (λ (r : Bool). Unit {0}) Any _ _
              (send-Ensures UpgradeError P (add_policy client version t) ask (add t))
              (λ added u.
                weaken-Ensures P (λ v. added ≡ true) Any _ (λ v e. tt)
                  (fail_unless-Ensures P added schedule_failed)))
          h p

    pub schedule_upgrade-Ensures :
        (user_ack : String) → Ensures P (schedule_upgrade env client desired user_ack) Any
    unfolding schedule_upgrade
    schedule_upgrade-Ensures user_ack =
        >>=-Ensures P (λ (g : List Gate). Unit {0}) Any _ _ check_missing_agreements-Ensures
          (λ (gates : List Gate) u.
            >>=-Ensures P (λ (m : String). get_ocm_version_minor env version ≡ some m) Any _ _
              (some_or_fail-Ensures P (get_ocm_version_minor env version) index_out_of_range)
              (λ minor is_minor.
                >>-Ensures P (not (ack_required gates && not (user_ack == minor)) ≡ true) Any _
                  (ack_all env (cluster_of client) gates >> add_upgrade env client version)
                  (fail_unless-Ensures P (not (ack_required gates && not (user_ack == minor)))
                    acks_missing)
                  (λ b.
                    >>-Ensures P Unit Any _ (add_upgrade env client version) (ack_all-Ensures gates)
                      (λ u. add_upgrade-Ensures))))
