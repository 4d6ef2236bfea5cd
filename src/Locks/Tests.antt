-- ===== src/Locks/Tests.antt =====
-- Two callers of one key, and the theorems applied there.
use tsdproxy.Common.{◌*◌, ◌≤◌, ◌≡◌, ◌↔◌, ◌⊎◌, refl, true, [], ◌∷◌, none, Text, text_Eq, length}
use tsdproxy.Common.Maps.{lookup, insert}
use tsdproxy.Strings.{codes}
use tsdproxy.Locks.{
  System, waits, holds, at, Proceeds, acquires, Step, calls, proceeds, Reach, starts, continues,
  new_keyed_locks, lock_entry, set_locked,
}
use tsdproxy.Locks.Counting.{count, holds_key, wants_key}
use tsdproxy.Locks.Exclusion.{Reach-one_holder, Reach-no_leak}
use tsdproxy.Locks.Spec.{Change, view, Step-Change}
use tsdproxy.Locks.Progress.{work, here, Run-ends}

abbrev key : Text
key = codes "web"

abbrev called : System → System
called s = record {
  kl = (lock_entry key s.kl).1;
  callers = at key (lock_entry key s.kl).0 waits ∷ s.callers;
}

abbrev waiting : System
waiting = called (called (record { kl = new_keyed_locks; callers = [] }))

abbrev held : System
held = record { kl = set_locked true 0 waiting.kl; callers = at key 0 holds ∷ at key 0 waits ∷ [] }

waiting_reached : Reach waiting
waiting_reached = continues _ _ (continues _ _ starts (calls key refl)) (calls key refl)

acquired : Step waiting held
unfolding lock_entry lookup insert
acquired = proceeds (acquires [] (at key 0 waits ∷ []) key 0 refl refl refl)

Reach-one_holder_example : count (holds_key key) held.callers ≤ 1
Reach-one_holder_example =
    Reach-one_holder held key (continues waiting held waiting_reached acquired)

Reach-no_leak_example : (lookup key held.kl.locks ≡ none) ↔ (count (wants_key key) held.callers ≡ 0)
Reach-no_leak_example = Reach-no_leak held key (continues waiting held waiting_reached acquired)

Step-Change_example : Change (view waiting) (view held) ⊎ (view waiting ≡ view held)
Step-Change_example = Step-Change waiting held waiting_reached acquired

Run-ends_example :
    (0 ≤ 3 * length waiting.callers)
    × (((u : System) × Proceeds waiting u) ⊎ ((work waiting.callers ≡ 0) × (waiting.kl.locks ≡ [])))
Run-ends_example = Run-ends waiting waiting 0 waiting_reached here
