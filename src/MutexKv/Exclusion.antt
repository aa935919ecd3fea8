-- ===== src/MutexKv/Exclusion.antt =====
-- What the locks of the map promise to their callers.
use mathlib.Core.Path.{subst}
use terraform_provider_ocm.Prelude.{ℕ, String, ◌≡◌, some}
use terraform_provider_ocm.MutexKv.{MutexKv, unlock_call, got, calling, critical, System, Reach}
use terraform_provider_ocm.MutexKv.Invariant.{Holds, Reach-Inv}

-- The mutexes that two threads hold for one key are one, and it has one holder.
same_holder :
    (i j : ℕ) (m : MutexKv) (key : String) (a b : ℕ)
    → Holds i m (critical key a)
    → Holds j m (critical key b)
    → i ≡ j
same_holder i j m key a b (held, known) (held', known') = cc

-- In every reachable state, two threads between Lock and Unlock of one key are one thread.
pub mutual_exclusion :
    {s : System} {key : String} {a b : ℕ}
    → Reach s
    → (i j : ℕ) → s.pc i ≡ critical key a
    → s.pc j ≡ critical key b
    → i ≡ j
mutual_exclusion {s} {key} {a} {b} r i j in_i in_j =
    same_holder i j s.mem key a b (subst (λ p. Holds i s.mem p) in_i (Reach-Inv r i))
      (subst (λ p. Holds j s.mem p) in_j (Reach-Inv r j))

-- In every reachable state, a thread that has got the mutex for its Unlock holds this very mutex,
-- and it is the one that its Lock got: the Unlock is never of a mutex that is not locked, nor of
-- one that another thread has locked.
pub unlocks_own :
    {s : System} {key : String} {locked mutex : ℕ}
    → Reach s
    → (i : ℕ) → s.pc i ≡ calling (unlock_call key locked) (got mutex)
    → (mutex ≡ locked) × (s.mem.held mutex ≡ some i)
unlocks_own {s} {key} {locked} {mutex} r i at =
    let (known, (held, known')) = subst (λ p. Holds i s.mem p) at (Reach-Inv r i) in (cc, cc)
