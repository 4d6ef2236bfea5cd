-- ===== src/Locks.antt =====
-- The mutexes per key of internal/proxymanager/locks.go. A pointer is a number; what `mu` guards is one step.
use tsdproxy.Common.{
  ℕ, ◌+◌, ◌-◌, Bool, true, false, List, [], ◌∷◌, ◌++◌, Option, none, some, ◌==◌, if◌then◌else◌,
  Text, text_eq, text_Eq, ◌≡◌,
}
use tsdproxy.Common.Maps.{Map, lookup, insert, erase}
pub mod Counting
pub mod Invariant
pub mod Steps
pub mod Exclusion
pub mod Spec
pub mod Progress
mod Tests

pub record RefCountedMutex : Type 0 where
  pub locked : Bool
  pub refs : ℕ

-- The map, and the heap with its next free pointer.
pub record KeyedLocks : Type 0 where
  pub locks : Map Text ℕ
  pub heap : ℕ → RefCountedMutex
  pub next : ℕ

abbrev pub write_at : ℕ → RefCountedMutex → (ℕ → RefCountedMutex) → ℕ → RefCountedMutex
write_at p rc heap q = if p == q then rc else heap q

abbrev pub no_mutex : RefCountedMutex
no_mutex = record { locked = false; refs = 0 }

abbrev pub new_keyed_locks : KeyedLocks
new_keyed_locks = record { locks = []; heap = λ p. no_mutex; next = 0 }

abbrev pub entry_found : Option ℕ → Text → KeyedLocks → ℕ × KeyedLocks
entry_found (some rc) key kl = (rc, kl)
entry_found none key kl = (
  kl.next,
  record {
    locks = insert key kl.next kl.locks;
    heap = write_at kl.next no_mutex kl.heap;
    next = kl.next + 1;
  },
)

-- `Lock` up to `rc.mu.Lock`, with the pointer that it waits on.
unfoldable pub lock_entry : Text → KeyedLocks → ℕ × KeyedLocks
lock_entry key kl =
    let (rc, found) = entry_found (lookup key kl.locks) key kl in
    (
      rc,
      record found {
        heap = write_at rc (record (found.heap rc) { refs = (found.heap rc).refs + 1 }) found.heap;
      },
    )

-- `rc.mu.Lock` and `rc.mu.Unlock`
unfoldable pub set_locked : Bool → ℕ → KeyedLocks → KeyedLocks
set_locked b rc kl = record kl { heap = write_at rc (record (kl.heap rc) { locked = b }) kl.heap }

abbrev pub is_current : Option ℕ → ℕ → Bool
is_current none rc = false
is_current (some current) rc = current == rc

-- `unlock` up to `rc.mu.Unlock`, none when the entry is stale.
unfoldable pub unlock_entry : Text → ℕ → KeyedLocks → Option KeyedLocks
unlock_entry key rc kl =
    if is_current (lookup key kl.locks) rc
    then (let refs = (kl.heap rc).refs - 1 in
        some (record kl {
          locks = if refs == 0 then erase key kl.locks else kl.locks;
          heap = write_at rc (record (kl.heap rc) { refs = refs }) kl.heap;
        }))
    else none

-- Where a call of `Lock` stands: in front of the mutex, with it, after the first part of `unlock`, done.
pub data Phase : Type 0 where
  waits : Phase
  holds : Phase
  leaves : Phase
  gone : Phase

pub record Caller : Type 0 where
  pub key : Text
  pub rc : ℕ
  pub phase : Phase

pub record System : Type 0 where
  pub kl : KeyedLocks
  pub callers : List Caller

abbrev pub at : Text → ℕ → Phase → Caller
at key rc phase = record { key = key; rc = rc; phase = phase }

-- What the callers do once they called `Lock`.
pub data Proceeds (s t : System) : Type 0 where
  acquires :
      (xs ys : List Caller) (key : Text) (rc : ℕ)
      → s.callers ≡ xs ++ at key rc waits ∷ ys
      → (s.kl.heap rc).locked ≡ false
      → t ≡ record { kl = set_locked true rc s.kl; callers = xs ++ at key rc holds ∷ ys }
      → Proceeds s t
  releases :
      (xs ys : List Caller) (key : Text) (rc : ℕ) (kl : KeyedLocks)
      → s.callers ≡ xs ++ at key rc holds ∷ ys
      → unlock_entry key rc s.kl ≡ some kl
      → t ≡ record { kl = kl; callers = xs ++ at key rc leaves ∷ ys }
      → Proceeds s t
  is_stale :
      (xs ys : List Caller) (key : Text) (rc : ℕ)
      → s.callers ≡ xs ++ at key rc holds ∷ ys
      → unlock_entry key rc s.kl ≡ none
      → t ≡ record { kl = s.kl; callers = xs ++ at key rc gone ∷ ys }
      → Proceeds s t
  unlocks :
      (xs ys : List Caller) (key : Text) (rc : ℕ)
      → s.callers ≡ xs ++ at key rc leaves ∷ ys
      → t ≡ record { kl = set_locked false rc s.kl; callers = xs ++ at key rc gone ∷ ys }
      → Proceeds s t

pub data Step (s t : System) : Type 0 where
  calls :
      (key : Text)
      → t ≡ record {
        kl = (lock_entry key s.kl).1;
        callers = at key (lock_entry key s.kl).0 waits ∷ s.callers;
      }
      → Step s t
  proceeds : Proceeds s t → Step s t

pub data Reach : System → Type 0 where
  starts : Reach (record { kl = new_keyed_locks; callers = [] })
  continues : (s t : System) → Reach s → Step s t → Reach t
