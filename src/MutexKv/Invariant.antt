-- ===== src/MutexKv/Invariant.antt =====
-- What holds in every reachable state of the map of locks.
use terraform_provider_ocm.Prelude.{
  ℕ, String, ◌≡◌, ◌≢◌, refl, sym, eq_refl, none, some, ◌∷◌, Dict, lookup, eq_iff, arith, inl, inr,
  ◌∙◌,
}
use mathlib.Core.Path.{subst}
use terraform_provider_ocm.MutexKv.Family.{update-cases, update_self}
use terraform_provider_ocm.MutexKv.{
  MutexKv, Call, lock_call, unlock_call, key_of, Stage, waiting, looking, made, found, got, Pc,
  idle, calling, critical, Move, call_lock, call_unlock, enter, hit, miss, keep, leave, acquire,
  release, System, Step, pick, start, Reach, here, later,
}

-- A thread inside `get` has the map's lock, and what it has found is what the map says.
abbrev pub StageHolds : ℕ → MutexKv → String → Stage → Type 0
StageHolds i m key waiting = Unit
StageHolds i m key looking = m.lock ≡ some i
StageHolds i m key (made mutex) = (m.lock ≡ some i) × (lookup key m.store ≡ none)
StageHolds i m key (found mutex) = (m.lock ≡ some i) × (lookup key m.store ≡ some mutex)
StageHolds i m key (got mutex) = lookup key m.store ≡ some mutex

-- The thread holds this mutex, which is the key's.
abbrev pub Holding : ℕ → MutexKv → String → ℕ → Type 0
Holding i m key mutex = (m.held mutex ≡ some i) × (lookup key m.store ≡ some mutex)

abbrev pub CallHolds : ℕ → MutexKv → Call → Type 0
CallHolds i m (lock_call key) = Unit
CallHolds i m (unlock_call key mutex) = Holding i m key mutex

abbrev pub Holds : ℕ → MutexKv → Pc → Type 0
Holds i m idle = Unit
Holds i m (calling c stage) = StageHolds i m (key_of c) stage × CallHolds i m c
Holds i m (critical key mutex) = Holding i m key mutex

abbrev pub Inv : System → Type 0
Inv s = (i : ℕ) → Holds i s.mem (s.pc i)

-- What another thread has is left alone.
abbrev Spares : ℕ → MutexKv → MutexKv → Type 0
Spares j m m' =
    (m.lock ≡ some j → m'.lock ≡ some j)
    × ((key : String) (mutex : ℕ)
        → lookup key m.store ≡ some mutex
        → lookup key m'.store ≡ some mutex)
    × ((key : String) → m.lock ≡ some j → lookup key m.store ≡ none → lookup key m'.store ≡ none)
    × ((mutex : ℕ) → m.held mutex ≡ some j → m'.held mutex ≡ some j)

StageHolds-Spares :
    (j : ℕ) (m m' : MutexKv) (key : String) (stage : Stage)
    → Spares j m m'
    → StageHolds j m key stage
    → StageHolds j m' key stage
StageHolds-Spares j m m' key waiting (a, b, c, d) h = tt
StageHolds-Spares j m m' key looking (a, b, c, d) h = a h
StageHolds-Spares j m m' key (made mutex) (a, b, c, d) (g, h) = (a g, c key g h)
StageHolds-Spares j m m' key (found mutex) (a, b, c, d) (g, h) = (a g, b key mutex h)
StageHolds-Spares j m m' key (got mutex) (a, b, c, d) h = b key mutex h

CallHolds-Spares :
    (j : ℕ) (m m' : MutexKv) (c : Call) → Spares j m m' → CallHolds j m c → CallHolds j m' c
CallHolds-Spares j m m' (lock_call key) spares h = tt
CallHolds-Spares j m m' (unlock_call key mutex) (a, b, c, d) (h, k) = (d mutex h, b key mutex k)

Holds-Spares : (j : ℕ) (m m' : MutexKv) (p : Pc) → Spares j m m' → Holds j m p → Holds j m' p
Holds-Spares j m m' idle spares h = tt
Holds-Spares j m m' (calling c stage) spares (g, h) =
    (StageHolds-Spares j m m' (key_of c) stage spares g, CallHolds-Spares j m m' c spares h)
Holds-Spares j m m' (critical key mutex) (a, b, c, d) (h, k) = (d mutex h, b key mutex k)

-- A new entry for a key without one.
lookup-fresh :
    (key other : String) (mutex mutex' : ℕ) (m : Dict ℕ)
    → lookup key m ≡ none
    → lookup other m ≡ some mutex'
    → lookup other ((key, mutex) ∷ m) ≡ some mutex'
unfolding lookup
lookup-fresh key other mutex mutex' m absent there = ground (arith, eq_iff key other)

lookup_self : (key : String) (mutex : ℕ) (m : Dict ℕ) → lookup key ((key, mutex) ∷ m) ≡ some mutex
unfolding lookup
lookup_self key mutex m = rw (eq_refl key) refl

-- A move of another thread.
Move-Spares :
    {i : ℕ} {m m' : MutexKv} {p p' : Pc} (j : ℕ)
    → j ≢ i
    → Move i m p m' p'
    → Holds i m p
    → Spares j m m'
Move-Spares j ne (call_lock key) h = ((λ e. e), (λ k x e. e), (λ k g e. e), (λ x e. e))
Move-Spares j ne (call_unlock key mutex) h = ((λ e. e), (λ k x e. e), (λ k g e. e), (λ x e. e))
Move-Spares j ne (enter c free) h = ((λ e. cc), (λ k x e. e), (λ k g e. e), (λ x e. e))
Move-Spares j ne (hit c mutex e) h = ((λ e. e), (λ k x e. e), (λ k g e. e), (λ x e. e))
Move-Spares j ne (miss c absent) h = ((λ e. e), (λ k x e. e), (λ k g e. e), (λ x e. e))
Move-Spares {i} {m} j ne (keep c mutex) ((mine, absent), h) = (
  (λ e. e),
  (λ k x e. lookup-fresh (key_of c) k mutex x m.store absent e),
  (λ k g e. absurd (ne (cc))),
  (λ x e. e),
)
Move-Spares j ne (leave c mutex) ((mine, there), h) =
    ((λ e. absurd (ne (cc))), (λ k x e. e), (λ k g e. e), (λ x e. e))
Move-Spares {i} {m} j ne (acquire key mutex free) h = (
  (λ e. e),
  (λ k x e. e),
  (λ k g e. e),
  (λ x e. elim (update-cases m.held mutex (some i) x) [ inl (q, v) ↦ cc | inr (q, v) ↦ v ∙ e ]),
)
Move-Spares {i} {m} j ne (release key locked mutex) (there, (mine, same)) = (
  (λ e. e),
  (λ k x e. e),
  (λ k g e. e),
  (λ x e. elim (update-cases m.held mutex none x) [
    | inl (q, v) ↦ absurd (ne (cc))
    | inr (q, v) ↦ v ∙ e
  ]),
)

-- The mover itself.
Move-Holds : {i : ℕ} {m m' : MutexKv} {p p' : Pc} → Move i m p m' p' → Holds i m p → Holds i m' p'
Move-Holds (call_lock key) h = (tt, tt)
Move-Holds (call_unlock key mutex) h = (tt, h)
Move-Holds (enter (lock_call key) free) h = (refl, tt)
Move-Holds (enter (unlock_call key mutex) free) (g, h) = (refl, h)
Move-Holds (hit c mutex there) (mine, h) = ((mine, there), h)
Move-Holds (miss (lock_call key) absent) (mine, h) = ((mine, absent), tt)
Move-Holds (miss (unlock_call key mutex) absent) (mine, h) = ((mine, absent), h)
Move-Holds {i} {m} (keep (lock_call key) mutex) ((mine, absent), h) =
    ((mine, lookup_self key mutex m.store), tt)
Move-Holds {i} {m} (keep (unlock_call key locked) mutex) ((mine, absent), (k, h)) = cc
Move-Holds (leave (lock_call key) mutex) ((mine, there), h) = (there, tt)
Move-Holds (leave (unlock_call key locked) mutex) ((mine, there), h) = (there, h)
Move-Holds {i} {m} (acquire key mutex free) (there, h) = (update_self m.held mutex (some i), there)
Move-Holds (release key locked mutex) h = tt

start-Inv : Inv start
start-Inv i = tt

Step-Inv : {s t : System} → Step s t → Inv s → Inv t
Step-Inv {s} (pick {m = m} {p = p} i move) inv j = elim (update-cases s.pc i p j) [
  | inl (same, at) ↦ rw at (subst (λ k. Holds k m p) same (Move-Holds move (inv i)))
  | inr (other, at) ↦
      rw at
        (Holds-Spares j s.mem m (s.pc j) (Move-Spares j (λ e. other (sym e)) move (inv i)) (inv j))
]

pub Reach-Inv : {s : System} → Reach s → Inv s
Reach-Inv here = start-Inv
Reach-Inv (later r step) = Step-Inv step (Reach-Inv r)
