-- ===== src/MutexKv.antt =====
-- provider/common/mutex.go: a map of locks, one for each key, behind a lock of its own. Threads
-- call Lock and Unlock by small steps: each acquisition and release of a lock and each access of
-- the map is a step, and the scheduler picks who moves.
pub mod Family
pub mod Invariant
pub mod Exclusion
mod Tests
use terraform_provider_ocm.Prelude.{
  ℕ, ◌+◌, String, ◌≡◌, Option, none, some, List, [], ◌∷◌, Dict, lookup,
}
use terraform_provider_ocm.MutexKv.Family.{update}

-- `mutexKV` with the mutexes that it points to, by address. Who holds a lock is written down.
pub record MutexKv : Type 0 where
  pub lock : Option ℕ
  pub store : Dict ℕ
  pub held : ℕ → Option ℕ
  pub next : ℕ  -- the next address that is free

-- A call, by its key; the address in `unlock` is that of the mutex which the caller locked.
pub data Call : Type 0 where
  lock_call : String → Call
  unlock_call : String → ℕ → Call

abbrev pub key_of : Call → String
key_of (lock_call key) = key
key_of (unlock_call key mutex) = key

-- Where `get` is, and the mutex it has come to.
pub data Stage : Type 0 where
  waiting looking : Stage  -- before and after `m.lock.Lock()`
  made : ℕ → Stage  -- `mutex = &sync.Mutex{}`
  found : ℕ → Stage  -- before the deferred `m.lock.Unlock()`
  got : ℕ → Stage  -- `get` has returned

pub data Pc : Type 0 where
  idle : Pc
  calling : Call → Stage → Pc
  critical : String → ℕ → Pc  -- between `Lock` and `Unlock` of the key

-- One step of thread `i`.
pub data Move (i : ℕ) (m : MutexKv) : Pc → MutexKv → Pc → Type 0 where
  call_lock : (key : String) → Move i m idle m (calling (lock_call key) waiting)
  call_unlock :
      (key : String) (mutex : ℕ)
      → Move i m (critical key mutex) m (calling (unlock_call key mutex) waiting)
  enter :
      (c : Call)
      → m.lock ≡ none
      → Move i m (calling c waiting) (record m { lock = some i }) (calling c looking)
  hit :
      (c : Call) (mutex : ℕ)
      → lookup (key_of c) m.store ≡ some mutex
      → Move i m (calling c looking) m (calling c (found mutex))
  miss :
      (c : Call)
      → lookup (key_of c) m.store ≡ none
      → Move i m (calling c looking) (record m { next = m.next + 1 }) (calling c (made m.next))
  keep :
      (c : Call) (mutex : ℕ)
      → Move i m
          (calling c (made mutex))
          (record m { store = (key_of c, mutex) ∷ m.store })
          (calling c (found mutex))
  leave :
      (c : Call) (mutex : ℕ)
      → Move i m (calling c (found mutex)) (record m { lock = none }) (calling c (got mutex))
  acquire :
      (key : String) (mutex : ℕ)
      → m.held mutex ≡ none
      → Move i m
          (calling (lock_call key) (got mutex))
          (record m { held = update m.held mutex (some i) })
          (critical key mutex)
  release :
      (key : String) (locked mutex : ℕ)
      → Move i m
          (calling (unlock_call key locked) (got mutex))
          (record m { held = update m.held mutex none })
          idle

pub record System : Type 0 where
  pub mem : MutexKv
  pub pc : ℕ → Pc

pub data Step : System → System → Type 0 where
  pick :
      {s : System} {m : MutexKv} {p : Pc} (i : ℕ)
      → Move i s.mem (s.pc i) m p
      → Step s (record { mem = m; pc = update s.pc i p })

-- `NewMutexKV`, before any call.
abbrev pub start : System
start = record {
  mem = record { lock = none; store = []; held = λ mutex. none; next = 0 };
  pc = λ i. idle;
}

pub data Reach : System → Type 0 where
  here : Reach start
  later : {s t : System} → Reach s → Step s t → Reach t
