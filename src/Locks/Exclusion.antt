-- ===== src/Locks/Exclusion.antt =====
-- What `keyedLocks` promises: one holder for each key, and an entry exactly as long as a key is wanted.
use tsdproxy.Common.{
  ℕ, ◌≤◌, ◌≡◌, ◌↔◌, refl, List, [], ◌∷◌, Option, none, some, arith, Text, text_Eq, text_eq_iff, All,
}
use tsdproxy.Common.Maps.{lookup}
use tsdproxy.Locks.{KeyedLocks, System, Caller, Reach}
use tsdproxy.Locks.Counting.{count, refers_to, has_locked, holds_key, wants_key}
use tsdproxy.Locks.Invariant.{IsEntered, IsValid}
use tsdproxy.Locks.Steps.{Reach-IsValid}

count-holds_none :
    (kl : KeyedLocks) (k : Text) (cs : List Caller)
    → lookup k kl.locks ≡ none
    → All (IsEntered kl) cs
    → (count (holds_key k) cs ≡ 0) × (count (wants_key k) cs ≡ 0)
count-holds_none kl k [] e h = (refl, refl)
count-holds_none kl k (c ∷ cs) e h =
    ground (arith, e, h.0, count-holds_none kl k cs e h.1, text_eq_iff c.key k)

pub count-holds_some :
    (kl : KeyedLocks) (k : Text) (rc : ℕ) (cs : List Caller)
    → lookup k kl.locks ≡ some rc
    → All (IsEntered kl) cs
    → count (holds_key k) cs ≤ count (has_locked rc) cs
count-holds_some kl k rc [] e h = omega arith
count-holds_some kl k rc (c ∷ cs) e h =
    ground (arith, e, h.0, count-holds_some kl k rc cs e h.1, text_eq_iff c.key k)

-- The callers that refer to a key's mutex want that key.
count-refers :
    (kl : KeyedLocks) (k : Text) (rc : ℕ) (cs : List Caller)
    → ((j : Text) → lookup j kl.locks ≡ some rc → j ≡ k)
    → All (IsEntered kl) cs
    → count (refers_to rc) cs ≤ count (wants_key k) cs
count-refers kl k rc [] apart h = omega arith
count-refers kl k rc (c ∷ cs) apart h =
    ground (arith, h.0, apart c.key, count-refers kl k rc cs apart h.1, text_eq_iff c.key k)

module _ (s : System) (v : IsValid s) where
  one_holder :
      (k : Text) (o : Option ℕ) → lookup k s.kl.locks ≡ o → count (holds_key k) s.callers ≤ 1
  one_holder k none e = omega (arith, count-holds_none s.kl k s.callers e v.entered)
  one_holder k (some rc) e =
      ground (arith, count-holds_some s.kl k rc s.callers e v.entered, v.exclusive rc)

  an_entry :
      (k : Text) (o : Option ℕ)
      → lookup k s.kl.locks ≡ o
      → (lookup k s.kl.locks ≡ none) ↔ (count (wants_key k) s.callers ≡ 0)
  an_entry k none e = ground (arith, e, count-holds_none s.kl k s.callers e v.entered)
  an_entry k (some rc) e = ground (
    arith,
    e,
    count-refers s.kl k rc s.callers (λ j f. v.apart j k rc f e) v.entered,
    v.counted rc,
    v.alive k rc e,
  )

-- Whatever the callers did, at most one of them holds the lock of a key.
pub Reach-one_holder : (s : System) (k : Text) → Reach s → count (holds_key k) s.callers ≤ 1
Reach-one_holder s k r = one_holder s (Reach-IsValid s r) k (lookup k s.kl.locks) refl

-- The map has an entry for a key exactly as long as a caller waits for the key's lock or holds it.
pub Reach-no_leak :
    (s : System) (k : Text)
    → Reach s
    → (lookup k s.kl.locks ≡ none) ↔ (count (wants_key k) s.callers ≡ 0)
Reach-no_leak s k r = an_entry s (Reach-IsValid s r) k (lookup k s.kl.locks) refl
