-- ===== src/Waiter/Loop.antt =====
-- The polling loop: with a client that polls as documented it ends within its attempts.

use terraform_provider_ocm.Prelude.{
  ℕ, zero, suc, ◌+◌, ◌-◌, ◌≤◌, ◌<◌, ◌≡◌, Bool, true, Option, some, arith, Option-cases, Bool-cases,
  nat_eq, inl, inr,
}
use terraform_provider_ocm.Sdk.{Cluster}
use terraform_provider_ocm.Waiter.{
  Poll, Stops, poll_cluster_state, poll_cluster_current_compute, last_seen, Ended, found, gave_up,
  cut_off, poll_loop, is_final, has_desired_compute,
}

-- Every attempt fails, or hands back a cluster for which the predicate has held.
abbrev pub Answers : (Cluster → Bool) → (ℕ → Option (Option Cluster)) → Type 0
Answers p polled =
    (n : ℕ) (object : Option Cluster)
    → polled n ≡ some object
    → (c : Cluster) × (object ≡ some c) × (p c ≡ true)

last_seen-answers :
    (poll : Poll) (p : Cluster → Bool)
    → Stops poll
    → (n : ℕ) (object : Option Cluster) → last_seen (poll n p) ≡ some object
    → (c : Cluster) × (object ≡ some c) × (p c ≡ true)
unfolding last_seen
last_seen-answers poll p stops n object h = elim (Option-cases (poll n p)) [
  | inl failed ↦ cc
  | inr (seen, e) ↦ let (c, last, holds) = stops n p seen e in (c, ground arith, holds)
]

pub poll_cluster_state-Answers :
    (poll : Poll) → Stops poll → Answers is_final (poll_cluster_state poll)
unfolding poll_cluster_state
poll_cluster_state-Answers poll stops n object h = last_seen-answers poll is_final stops n object h

pub poll_cluster_current_compute-Answers :
    (poll : Poll) → Stops poll → Answers has_desired_compute (poll_cluster_current_compute poll)
unfolding poll_cluster_current_compute
poll_cluster_current_compute-Answers poll stops n object h =
    last_seen-answers poll has_desired_compute stops n object h

-- How a loop that began with these attempts, polls and sleeps may end.
abbrev pub EndsWell : (Cluster → Bool) → ℕ → ℕ → ℕ → Ended → Type 0
EndsWell p attempts polls sleeps (found c polls' sleeps') =
    (p c ≡ true) × (polls' ≤ polls + attempts) × (polls' + sleeps ≡ sleeps' + polls + 1)
EndsWell p attempts polls sleeps (gave_up polls' sleeps') =
    (polls' ≡ polls + attempts) × (sleeps' + 1 ≡ sleeps + attempts)
EndsWell p attempts polls sleeps cut_off = ⊥

-- A loop that began after one more failure and sleep.
EndsWell-retry :
    (p : Cluster → Bool) (attempts polls sleeps : ℕ) (end : Ended)
    → EndsWell p (attempts - 1) (polls + 1) (sleeps + 1) end
    → 0 < attempts - 1
    → EndsWell p attempts polls sleeps end
EndsWell-retry p attempts polls sleeps (found c polls' sleeps') h more =
    (h.0, omega arith, omega arith)
EndsWell-retry p attempts polls sleeps (gave_up polls' sleeps') h more = omega arith
EndsWell-retry p attempts polls sleeps cut_off h more = h

module _ (p : Cluster → Bool) (polled : ℕ → Option (Option Cluster))
    (answers : Answers p polled) where
  -- One attempt is used up by each poll that fails, and each of these but the last sleeps once.
  pub poll_loop-EndsWell :
      (fuel attempts polls sleeps : ℕ)
      → 0 < attempts
      → attempts ≤ fuel
      → EndsWell p attempts polls sleeps (poll_loop polled fuel attempts polls sleeps)
  unfolding poll_loop
  poll_loop-EndsWell zero attempts polls sleeps some_left enough = absurd (omega arith)
  poll_loop-EndsWell (suc fuel) attempts polls sleeps some_left enough =
      elim (Option-cases (polled polls)) [
        | inl failed ↦
            rw (failed, EndsWell)
              (elim (Bool-cases (nat_eq (attempts - 1) 0)) [
                | inl last ↦ rw (last, EndsWell) (ground arith)
                | inr more ↦
                    rw (more, EndsWell)
                      (EndsWell-retry p attempts polls sleeps _
                        (poll_loop-EndsWell fuel (attempts - 1) (polls + 1) (sleeps + 1)
                          (ground arith) (omega arith))
                        (ground arith))
              ])
        | inr (object, e) ↦
            let (c, is_c, holds) = answers polls object e in
            rw (e, is_c, EndsWell) (holds, omega arith, omega arith)
      ]
