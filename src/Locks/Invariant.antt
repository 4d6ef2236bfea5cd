-- ===== src/Locks/Invariant.antt =====
-- What holds between the map, the mutexes and the callers.
use tsdproxy.Common.{
  ℕ, ◌+◌, ◌-◌, ◌≤◌, ◌<◌, ◌≡◌, ◌≢◌, refl, sym, ap, ◌∙◌, Bool, true, false, ◌&&◌, List, [], ◌∷◌, ◌++◌,
  Option, none, some, arith, ◌==◌, if◌then◌else◌, Text, text_Eq, text_eq_iff, All,
}
use tsdproxy.Common.Maps.{lookup, erase, lookup-erase}
use tsdproxy.Locks.{
  KeyedLocks, System, Caller, Phase, waits, holds, leaves, gone, at, write_at, new_keyed_locks,
  set_locked, unlock_entry,
}
use tsdproxy.Locks.Counting.{
  one_if, count, count-append, refers, refers_to, has_locked, All-split, All-join,
}

-- A caller's mutex is the key's as long as the caller has a reference.
abbrev pub IsEntered : KeyedLocks → Caller → Type 0
IsEntered kl c = (c.rc < kl.next) × (refers c.phase ≡ true → lookup c.key kl.locks ≡ some c.rc)

pub record IsValid (s : System) : Type 0 where
  pub entered : All (IsEntered s.kl) s.callers
  pub counted : (rc : ℕ) → (s.kl.heap rc).refs ≡ count (refers_to rc) s.callers
  pub exclusive : (rc : ℕ) → one_if (s.kl.heap rc).locked ≡ count (has_locked rc) s.callers
  pub alive :
      (k : Text) (rc : ℕ)
      → lookup k s.kl.locks ≡ some rc
      → (rc < s.kl.next) × (1 ≤ (s.kl.heap rc).refs)
  pub apart :
      (j k : Text) (rc : ℕ) → lookup j s.kl.locks ≡ some rc → lookup k s.kl.locks ≡ some rc → j ≡ k

pub starts-IsValid : IsValid (record { kl = new_keyed_locks; callers = [] })
unfolding lookup
starts-IsValid = record {
  entered = tt;
  counted = λ rc. refl;
  exclusive = λ rc. refl;
  alive = λ k rc e. cc;
  apart = λ j k rc e f. cc;
}

-- One caller moves on, with the same counts of the others.
count-change :
    (f : Caller → Bool) (xs ys : List Caller) (c d : Caller)
    → count f (xs ++ d ∷ ys) + one_if (f c) ≡ count f (xs ++ c ∷ ys) + one_if (f d)
count-change f xs ys c d = omega (arith, count-append f xs (c ∷ ys), count-append f xs (d ∷ ys))

-- Nobody is in front of a pointer that is not allocated.
pub count-fresh :
    (kl : KeyedLocks) (f : Phase → Bool) (cs : List Caller)
    → All (IsEntered kl) cs
    → count (λ c. f c.phase && c.rc == kl.next) cs ≡ 0
count-fresh kl f [] h = refl
count-fresh kl f (c ∷ cs) h = ground (arith, count-fresh kl f cs h.1)

pub acquires-IsValid :
    (kl : KeyedLocks) (xs ys : List Caller) (key : Text) (rc : ℕ)
    → (kl.heap rc).locked ≡ false
    → IsValid (record { kl = kl; callers = xs ++ at key rc waits ∷ ys })
    → IsValid (record { kl = set_locked true rc kl; callers = xs ++ at key rc holds ∷ ys })
unfolding set_locked
acquires-IsValid kl xs ys key rc free v =
    let (a, p, b) = All-split (IsEntered kl) xs (at key rc waits) ys v.entered in
    record {
      entered = All-join (IsEntered kl) xs (at key rc holds) ys a (p.0, λ r. p.1 refl) b;
      counted = λ q. ground (
        arith,
        v.counted q,
        count-change (refers_to q) xs ys (at key rc waits) (at key rc holds),
      );
      exclusive = λ q. ground (
        arith,
        free,
        v.exclusive q,
        count-change (has_locked q) xs ys (at key rc waits) (at key rc holds),
      );
      alive = λ k q e. ground (arith, v.alive k q e);
      apart = v.apart;
    }

pub unlocks-IsValid :
    (kl : KeyedLocks) (xs ys : List Caller) (key : Text) (rc : ℕ)
    → IsValid (record { kl = kl; callers = xs ++ at key rc leaves ∷ ys })
    → IsValid (record { kl = set_locked false rc kl; callers = xs ++ at key rc gone ∷ ys })
unfolding set_locked
unlocks-IsValid kl xs ys key rc v =
    let (a, p, b) = All-split (IsEntered kl) xs (at key rc leaves) ys v.entered in
    record {
      entered = All-join (IsEntered kl) xs (at key rc gone) ys a (p.0, λ r. p.1 r) b;
      counted = λ q. ground (
        arith,
        v.counted q,
        count-change (refers_to q) xs ys (at key rc leaves) (at key rc gone),
      );
      exclusive = λ q. ground (
        arith,
        v.exclusive q,
        count-change (has_locked q) xs ys (at key rc leaves) (at key rc gone),
      );
      alive = λ k q e. ground (arith, v.alive k q e);
      apart = v.apart;
    }

-- The entry may go when nobody refers to its mutex any more.
IsEntered-erase :
    (kl after : KeyedLocks) (key : Text) (rc : ℕ) (cs : List Caller)
    → lookup key kl.locks ≡ some rc
    → after.next ≡ kl.next
    → after.locks ≡ erase key kl.locks
    → count (refers_to rc) cs ≡ 0
    → All (IsEntered kl) cs
    → All (IsEntered after) cs
IsEntered-erase kl after key rc [] here n e none_left h = tt
IsEntered-erase kl after key rc (c ∷ cs) here n e none_left h = (
  ground (
    arith,
    here,
    n,
    none_left,
    h.0,
    lookup-erase key c.key kl.locks,
    text_eq_iff key c.key,
    ap (lookup c.key) e,
  ),
  IsEntered-erase kl after key rc cs here n e (omega (arith, none_left)) h.1,
)

or_else : KeyedLocks → Option KeyedLocks → KeyedLocks
or_else kl none = kl
or_else kl (some after) = after

some_injective : {a b : KeyedLocks} → some a ≡ some b → a ≡ b
unfolding or_else
some_injective {a} {b} e = ap (or_else a) e

-- The state behind the first part of `unlock`, by whether the reference was the last.
abbrev released : Bool → Text → ℕ → KeyedLocks → KeyedLocks
released last key rc kl = record kl {
  locks = if last then erase key kl.locks else kl.locks;
  heap = write_at rc (record (kl.heap rc) { refs = (kl.heap rc).refs - 1 }) kl.heap;
}

-- A caller that has a reference finds its entry, so that its `unlock` is never stale.
pub unlock_entry_current :
    (key : Text) (rc : ℕ) (kl : KeyedLocks)
    → lookup key kl.locks ≡ some rc
    → unlock_entry key rc kl ≡ some (released ((kl.heap rc).refs - 1 == 0) key rc kl)
unfolding unlock_entry
unlock_entry_current key rc kl e = rw e (ground arith)

module _ (kl : KeyedLocks) (xs ys : List Caller) (key : Text) (rc : ℕ)
    (v : IsValid (record { kl = kl; callers = xs ++ at key rc holds ∷ ys })) where
  split : All (IsEntered kl) xs × IsEntered kl (at key rc holds) × All (IsEntered kl) ys
  split = All-split (IsEntered kl) xs (at key rc holds) ys v.entered

  pub found : lookup key kl.locks ≡ some rc
  found = split.1.1 refl

  released_counts :
      (q : ℕ) (last : Bool)
      → ((released last key rc kl).heap q).refs ≡ count (refers_to q) (xs ++ at key rc leaves ∷ ys)
  released_counts q last = ground (
    arith,
    v.counted q,
    v.alive key rc found,
    count-change (refers_to q) xs ys (at key rc holds) (at key rc leaves),
  )

  nobody_left :
      ((kl.heap rc).refs - 1 == 0) ≡ true
      → (count (refers_to rc) xs ≡ 0) × (count (refers_to rc) ys ≡ 0)
  nobody_left e = ground (
    arith,
    e,
    v.counted rc,
    v.alive key rc found,
    count-append (refers_to rc) xs (at key rc holds ∷ ys),
  )

  -- The entries of the other keys are still there, with other mutexes.
  kept_entry :
      (k : Text) (q : ℕ)
      → lookup k (erase key kl.locks) ≡ some q
      → (lookup k kl.locks ≡ some q) × (rc ≢ q)
  kept_entry k q f =
      ground (arith, f, lookup-erase key k kl.locks, text_eq_iff key k, v.apart key k rc found)

  released-IsValid :
      (last : Bool)
      → ((kl.heap rc).refs - 1 == 0) ≡ last
      → IsValid (record { kl = released last key rc kl; callers = xs ++ at key rc leaves ∷ ys })
  released-IsValid false e = record {
    entered = All-join (IsEntered kl) xs (at key rc leaves) ys split.0 (split.1.0, λ r. cc) split.2;
    counted = λ q. released_counts q false;
    exclusive = λ q. ground (
      arith,
      v.exclusive q,
      count-change (has_locked q) xs ys (at key rc holds) (at key rc leaves),
    );
    alive = λ k q f. ground (arith, e, v.alive k q f);
    apart = v.apart;
  }
  released-IsValid true e =
      let after = released true key rc kl in
      let none_left = nobody_left e in
      record {
        entered =
            All-join (IsEntered after) xs (at key rc leaves) ys
              (IsEntered-erase kl after key rc xs found refl refl none_left.0 split.0)
              (split.1.0, λ r. cc)
              (IsEntered-erase kl after key rc ys found refl refl none_left.1 split.2);
        counted = λ q. released_counts q true;
        exclusive = λ q. ground (
          arith,
          v.exclusive q,
          count-change (has_locked q) xs ys (at key rc holds) (at key rc leaves),
        );
        alive = λ k q f. ground (arith, kept_entry k q f, v.alive k q);
        apart = λ j k q f g. v.apart j k q (kept_entry j q f).0 (kept_entry k q g).0;
      }

pub releases-IsValid :
    (kl after : KeyedLocks) (xs ys : List Caller) (key : Text) (rc : ℕ)
    → unlock_entry key rc kl ≡ some after
    → IsValid (record { kl = kl; callers = xs ++ at key rc holds ∷ ys })
    → IsValid (record { kl = after; callers = xs ++ at key rc leaves ∷ ys })
releases-IsValid kl after xs ys key rc e v =
    let same =
      some_injective (sym (unlock_entry_current key rc kl (found kl xs ys key rc v)) ∙ e) in
    rw⁻¹ same (released-IsValid kl xs ys key rc v ((kl.heap rc).refs - 1 == 0) refl)
