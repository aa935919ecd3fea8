-- ===== src/MutexKv/Tests.antt =====
-- Two threads that lock one key, and the theorems at their states.
use native.Mathlib.Decide.{ℕ_discrete}
use terraform_provider_ocm.Prelude.{ℕ, ◌≡◌, refl, some, lookup}
use terraform_provider_ocm.MutexKv.{
  lock_call, unlock_call, got, calling, critical, call_lock, call_unlock, enter, hit, miss, keep,
  leave, acquire, System, pick, Reach, here, later,
}
use terraform_provider_ocm.MutexKv.Exclusion.{mutual_exclusion, unlocks_own}

-- Thread 0 has locked the key, which made its mutex.
locked : (s : System) × Reach s × (s.pc 0 ≡ critical "c1" 0)
unfolding ℕ_discrete lookup
locked = (
  _,
  later
      (later
        (later
          (later
            (later (later here (pick 0 (call_lock "c1"))) (pick 0 (enter (lock_call "c1") refl)))
            (pick 0 (miss (lock_call "c1") refl)))
          (pick 0 (keep (lock_call "c1") 0)))
        (pick 0 (leave (lock_call "c1") 0)))
      (pick 0 (acquire "c1" 0 refl)),
  refl,
)

-- It is about to unlock it.
unlocking : (s : System) × Reach s × (s.pc 0 ≡ calling (unlock_call "c1" 0) (got 0))
unfolding ℕ_discrete lookup locked
unlocking = (
  _,
  later
      (later
        (later (later locked.1 (pick 0 (call_unlock "c1" 0)))
          (pick 0 (enter (unlock_call "c1" 0) refl)))
        (pick 0 (hit (unlock_call "c1" 0) 0 refl)))
      (pick 0 (leave (unlock_call "c1" 0) 0)),
  refl,
)

mutual_exclusion_example : ◌≡◌ {A = ℕ} 0 0
mutual_exclusion_example = mutual_exclusion locked.1 0 0 locked.2 locked.2

unlocks_own_example : (◌≡◌ {A = ℕ} 0 0) × (unlocking.0.mem.held 0 ≡ some 0)
unlocks_own_example = unlocks_own unlocking.1 0 unlocking.2
