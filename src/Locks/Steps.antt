-- ===== src/Locks/Steps.antt =====
-- Every step of the callers keeps the map, the mutexes and the callers together.
use tsdproxy.Common.{
  ℕ, ◌+◌, ◌≡◌, refl, sym, ◌∙◌, Bool, ◌&&◌, List, ◌∷◌, Option, none, some, arith, ◌==◌, Text,
  text_Eq, text_eq_iff, All-map,
}
use tsdproxy.Common.Maps.{lookup, lookup-insert}
use tsdproxy.Locks.{
  KeyedLocks, System, Caller, Phase, waits, at, Proceeds, acquires, releases, is_stale, unlocks,
  Step, calls, proceeds, Reach, starts, continues, write_at, entry_found, lock_entry,
}
use tsdproxy.Locks.Counting.{count, refers, locks_it}
use tsdproxy.Locks.Invariant.{
  IsEntered, IsValid, starts-IsValid, count-fresh, acquires-IsValid, unlocks-IsValid,
  releases-IsValid, unlock_entry_current, found,
}

-- The state behind the critical section of `Lock`, by whether the key had an entry.
abbrev entered_old : ℕ → KeyedLocks → KeyedLocks
entered_old rc kl = record kl {
  heap = write_at rc (record (kl.heap rc) { refs = (kl.heap rc).refs + 1 }) kl.heap;
}

abbrev entered_new : Text → KeyedLocks → KeyedLocks
entered_new key kl = entered_old kl.next (entry_found none key kl).1

module _ (kl : KeyedLocks) (cs : List Caller) (key : Text)
    (v : IsValid (record { kl = kl; callers = cs })) where
  calls_old-IsValid :
      (rc : ℕ)
      → lookup key kl.locks ≡ some rc
      → IsValid (record { kl = entered_old rc kl; callers = at key rc waits ∷ cs })
  calls_old-IsValid rc e = record {
    entered = (((v.alive key rc e).0, λ r. e), v.entered);
    counted = λ q. ground (arith, v.counted q);
    exclusive = λ q. ground (arith, v.exclusive q);
    alive = λ k q f. ground (arith, v.alive k q f);
    apart = v.apart;
  }

  unused : (f : Phase → Bool) → count (λ c. f c.phase && c.rc == kl.next) cs ≡ 0
  unused f = count-fresh kl f cs v.entered

  IsEntered-insert :
      lookup key kl.locks ≡ none → (c : Caller) → IsEntered kl c → IsEntered (entered_new key kl) c
  IsEntered-insert e c h =
      ground (arith, e, h, lookup-insert key c.key kl.next kl.locks, text_eq_iff key c.key)

  calls_new-IsValid :
      lookup key kl.locks ≡ none
      → IsValid (record { kl = entered_new key kl; callers = at key kl.next waits ∷ cs })
  calls_new-IsValid e = record {
    entered = (
      (
        omega arith,
        λ r. ground (arith, lookup-insert key key kl.next kl.locks, text_eq_iff key key),
      ),
      All-map (IsEntered-insert e) cs v.entered,
    );
    counted = λ q. ground (arith, v.counted q, unused refers);
    exclusive = λ q. ground (arith, v.exclusive q, unused locks_it);
    alive = λ k q f. ground (arith, f, v.alive k q, lookup-insert key k kl.next kl.locks);
    apart = λ j k q f g. ground (
      arith,
      f,
      g,
      v.apart j k q,
      v.alive j q,
      v.alive k q,
      lookup-insert key j kl.next kl.locks,
      lookup-insert key k kl.next kl.locks,
      text_eq_iff key j,
      text_eq_iff key k,
    );
  }

lock_entry-IsValid :
    (kl : KeyedLocks) (cs : List Caller) (key : Text)
    → IsValid (record { kl = kl; callers = cs })
    → (o : Option ℕ) → lookup key kl.locks ≡ o
    → IsValid (record {
      kl = entered_old (entry_found o key kl).0 (entry_found o key kl).1;
      callers = at key (entry_found o key kl).0 waits ∷ cs;
    })
lock_entry-IsValid kl cs key v none e = calls_new-IsValid kl cs key v e
lock_entry-IsValid kl cs key v (some rc) e = calls_old-IsValid kl cs key v rc e

pub Proceeds-IsValid : (s t : System) → Proceeds s t → IsValid s → IsValid t
Proceeds-IsValid s t (acquires xs ys key rc at_ free e) v =
    rw e (acquires-IsValid s.kl xs ys key rc free (rw⁻¹ at_ v))
Proceeds-IsValid s t (releases xs ys key rc kl at_ done e) v =
    rw e (releases-IsValid s.kl kl xs ys key rc done (rw⁻¹ at_ v))
Proceeds-IsValid s t (is_stale xs ys key rc at_ stale e) v =
    cc (sym stale ∙ unlock_entry_current key rc s.kl (found s.kl xs ys key rc (rw⁻¹ at_ v)))
Proceeds-IsValid s t (unlocks xs ys key rc at_ e) v =
    rw e (unlocks-IsValid s.kl xs ys key rc (rw⁻¹ at_ v))

pub Step-IsValid : (s t : System) → Step s t → IsValid s → IsValid t
unfolding lock_entry
Step-IsValid s t (calls key e) v =
    rw e (lock_entry-IsValid s.kl s.callers key v (lookup key s.kl.locks) refl)
Step-IsValid s t (proceeds p) v = Proceeds-IsValid s t p v

pub Reach-IsValid : (s : System) → Reach s → IsValid s
Reach-IsValid s starts = starts-IsValid
Reach-IsValid s (continues r t h step) = Step-IsValid r t step (Reach-IsValid r h)
