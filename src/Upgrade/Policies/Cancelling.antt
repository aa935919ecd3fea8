-- ===== src/Upgrade/Policies/Cancelling.antt =====
-- Which policies a check cancels, and what its answer says.
use terraform_provider_ocm.Prelude.{
  ℕ, ◌+◌, ◌≡◌, Bool, true, false, not, ◌&&◌, ◌||◌, ltb, none, some, List, [], ◌∷◌, any, All, OnOk,
  arith,
}
use terraform_provider_ocm.Client.{send}
use terraform_provider_ocm.Client.Logic.{
  Ensures, Any, >>=-Ensures, weaken-Ensures, some_or_fail-Ensures,
}
use terraform_provider_ocm.Upgrade.{
  PolicyState, delayed, started, pending, scheduled, Policy, ClusterUpgrade, Request, delete_policy,
  History, Env, upgrade_version_not_parsed, ten_minutes,
}
use terraform_provider_ocm.Upgrade.Policies.{
  cancel, check_one, check_all, check_and_cancel_upgrades,
}

abbrev pub is_in_progress : PolicyState → Bool
is_in_progress state = elim state [ delayed ↦ true | started ↦ true | _ ↦ false ]

abbrev pub is_waiting : PolicyState → Bool
is_waiting state = elim state [ pending ↦ true | scheduled ↦ true | _ ↦ false ]

module _ {V : Type 0} (env : Env V) (desired : V) (limit : ℕ) where
  -- To the desired version, by an upgrade that is in progress or begins before the limit.
  abbrev pub is_correct : V → ClusterUpgrade → Bool
  is_correct to upgrade =
      env.semver.equal desired to
      && (is_in_progress upgrade.state
          || (is_waiting upgrade.state && ltb upgrade.policy.next_run limit))

  -- In progress to another version.
  abbrev pub conflicts : V → ClusterUpgrade → Bool
  conflicts to upgrade = is_in_progress upgrade.state && not (env.semver.equal desired to)

  -- Waiting, and not the correct one.
  abbrev pub may_cancel : V → ClusterUpgrade → Bool
  may_cancel to upgrade = is_waiting upgrade.state && not (is_correct to upgrade)

  abbrev pub holds_at : (V → ClusterUpgrade → Bool) → ClusterUpgrade → Bool
  holds_at test upgrade = elim (env.semver.parse upgrade.policy.version) [
    | none ↦ false
    | some to ↦ test to upgrade
  ]

  -- What is in `P` of the deletions that the upgrade allows.
  abbrev pub Allows : (Request → Type 0) → ClusterUpgrade → Type 0
  Allows P upgrade =
      holds_at may_cancel upgrade ≡ true → P (delete_policy upgrade.policy.owner upgrade.policy.id)

  -- The answer for these upgrades, of which none is in progress to another version.
  abbrev pub Answers : Bool → List ClusterUpgrade → Bool → Type 0
  Answers correct upgrades answer =
      (answer ≡ (correct || any (holds_at is_correct) upgrades))
      × (any (holds_at conflicts) upgrades ≡ false)

  module _ (P : Request → Type 0) where
    cancel-Ensures :
        (policy : Policy)
        → P (delete_policy policy.owner policy.id)
        → Ensures (All P) (cancel env policy) Any
    unfolding cancel send
    cancel-Ensures policy good h p = ground arith

    check_one-Ensures :
        (upgrade : ClusterUpgrade) (to : V) (correct : Bool)
        → (may_cancel to upgrade ≡ true → P (delete_policy upgrade.policy.owner upgrade.policy.id))
        → Ensures
            (All P)
            (check_one env desired limit upgrade.policy to correct upgrade.state)
            (λ answer.
              (answer ≡ (correct || is_correct to upgrade)) × (conflicts to upgrade ≡ false))
    unfolding check_one cancel send
    check_one-Ensures upgrade to correct allowed h p = ground arith

    check_all-Ensures :
        (upgrades : List ClusterUpgrade) (correct : Bool)
        → All (Allows P) upgrades
        → Ensures (All P) (check_all env desired limit correct upgrades) (Answers correct upgrades)
    unfolding check_all
    check_all-Ensures [] correct allowed = λ h p. (p, ground arith)
    check_all-Ensures (upgrade ∷ upgrades) correct (now, later) =
        let One : V → Bool → Type 0 =
          λ to a. (a ≡ (correct || is_correct to upgrade)) × (conflicts to upgrade ≡ false) in
        >>=-Ensures (All P) (λ to. env.semver.parse upgrade.policy.version ≡ some to) _ _ _
          (some_or_fail-Ensures (All P) (env.semver.parse upgrade.policy.version)
            upgrade_version_not_parsed)
          (λ to parsed.
            >>=-Ensures (All P) (One to) _ _ _
              (check_one-Ensures upgrade to correct (λ may. now (rw (holds_at, parsed) may)))
              (λ answer one.
                weaken-Ensures (All P) (Answers answer upgrades) _ _
                  (λ a rest. rw (holds_at, parsed) (ground arith))
                  (check_all-Ensures upgrades answer later)))

module _ {V : Type 0} (env : Env V) where
  -- Whatever holds of the deletions of the upgrades that wait and are not the correct one (to the
  -- desired version, and due within ten minutes) holds of every request that a check adds: it
  -- cancels nothing else, and never an upgrade in progress. Its answer, where it reports no error,
  -- is whether one of the upgrades is to the desired version and in progress or due within ten
  -- minutes, and then no upgrade to another version is in progress.
  pub check_and_cancel-Answers :
      (desired : V) (upgrades : List ClusterUpgrade) (P : Request → Type 0) (h : History)
      → All (Allows env desired (env.now h + ten_minutes) P) upgrades
      → All P h
      → let (answer, h') = check_and_cancel_upgrades env upgrades desired h in
        All P h' × OnOk (Answers env desired (env.now h + ten_minutes) false upgrades) answer
  unfolding check_and_cancel_upgrades
  check_and_cancel-Answers desired upgrades P h allowed p =
      check_all-Ensures env desired (env.now h + ten_minutes) P upgrades false allowed h p
