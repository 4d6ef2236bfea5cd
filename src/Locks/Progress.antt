-- ===== src/Locks/Progress.antt =====
-- No caller of `keyedLocks` waits for ever, as long as those that hold a lock give it back.
use tsdproxy.Common.{
  ℕ, zero, suc, ◌+◌, ◌*◌, ◌≤◌, ◌<◌, ◌≡◌, ◌⊎◌, refl, ap, Bool, true, false, not, ◌&&◌, List, [], ◌∷◌,
  ◌++◌, none, arith, ◌==◌, Text, text_Eq, text_eq_iff, length, inl, inr,
}
use tsdproxy.Common.Maps.{Map, lookup}
use tsdproxy.Locks.{
  System, Caller, Phase, waits, holds, leaves, gone, at, Proceeds, acquires, releases, is_stale,
  unlocks, proceeds, Reach, continues,
}
use tsdproxy.Locks.Counting.{one_if, count, locks_it, has_locked, wants_key, count-split}
use tsdproxy.Locks.Invariant.{IsValid, unlock_entry_current, found}
use tsdproxy.Locks.Steps.{Reach-IsValid}
use tsdproxy.Locks.Exclusion.{Reach-no_leak}

-- The steps that a caller has before it.
abbrev pub weight : Phase → ℕ
weight waits = 3
weight holds = 2
weight leaves = 1
weight gone = 0

abbrev pub work : List Caller → ℕ
work [] = 0
work (c ∷ cs) = weight c.phase + work cs

work-append : (xs ys : List Caller) → work (xs ++ ys) ≡ work xs + work ys
work-append [] ys = omega arith
work-append (c ∷ xs) ys = omega (arith, work-append xs ys)

work-change :
    (cs ds xs ys : List Caller) (c d : Caller)
    → cs ≡ xs ++ c ∷ ys
    → ds ≡ xs ++ d ∷ ys
    → work ds + weight c.phase ≡ work cs + weight d.phase
work-change cs ds xs ys c d e f =
    omega (arith, ap work e, ap work f, work-append xs (c ∷ ys), work-append xs (d ∷ ys))

Proceeds-work : (s t : System) → Proceeds s t → work t.callers < work s.callers
Proceeds-work s t (acquires xs ys key rc e free f) = omega (
  arith,
  work-change s.callers t.callers xs ys (at key rc waits) (at key rc holds) e
      (ap (λ u. u.callers) f),
)
Proceeds-work s t (releases xs ys key rc kl e g f) = omega (
  arith,
  work-change s.callers t.callers xs ys (at key rc holds) (at key rc leaves) e
      (ap (λ u. u.callers) f),
)
Proceeds-work s t (is_stale xs ys key rc e g f) = omega (
  arith,
  work-change s.callers t.callers xs ys (at key rc holds) (at key rc gone) e
      (ap (λ u. u.callers) f),
)
Proceeds-work s t (unlocks xs ys key rc e f) = omega (
  arith,
  work-change s.callers t.callers xs ys (at key rc leaves) (at key rc gone) e
      (ap (λ u. u.callers) f),
)

-- A caller that has the mutex can go on.
goes_on :
    (s : System) (xs ys : List Caller) (key : Text) (rc : ℕ) (p : Phase)
    → IsValid s
    → s.callers ≡ xs ++ at key rc p ∷ ys
    → has_locked rc (at key rc p) ≡ true
    → (t : System) × Proceeds s t
goes_on s xs ys key rc waits v e h = cc
goes_on s xs ys key rc holds v e h = (
  _,
  releases xs ys key rc _ e (unlock_entry_current key rc s.kl (found s.kl xs ys key rc (rw⁻¹ e v)))
      refl,
)
goes_on s xs ys key rc leaves v e h = (_, unlocks xs ys key rc e refl)
goes_on s xs ys key rc gone v e h = cc

abbrev is_busy : Caller → Bool
is_busy c = not (weight c.phase == 0)

busy_of_work : (cs : List Caller) → 1 ≤ work cs → 1 ≤ count is_busy cs
busy_of_work [] h = h
busy_of_work (c ∷ cs) h = ground (arith, h, busy_of_work cs)

at_own : (p : Phase) (rc q : ℕ) → (locks_it p && rc == q) ≡ true → (locks_it p && rc == rc) ≡ true
at_own p rc q h = ground (arith, h)

somebody_goes_on :
    (s : System) (rc : ℕ) → IsValid s → (s.kl.heap rc).locked ≡ true → (t : System) × Proceeds s t
somebody_goes_on s rc v e =
    let (xs, c, ys, f, h) =
      count-split (has_locked rc) s.callers (omega (arith, ap one_if e, v.exclusive rc)) in
    goes_on s xs ys c.key c.rc c.phase v f (at_own c.phase c.rc rc h)

one_goes_on :
    (s : System) (xs ys : List Caller) (key : Text) (rc : ℕ) (p : Phase) (b : Bool)
    → IsValid s
    → s.callers ≡ xs ++ at key rc p ∷ ys
    → is_busy (at key rc p) ≡ true
    → (s.kl.heap rc).locked ≡ b
    → (t : System) × Proceeds s t
one_goes_on s xs ys key rc waits true v e h l = somebody_goes_on s rc v l
one_goes_on s xs ys key rc waits false v e h l = (_, acquires xs ys key rc e l refl)
one_goes_on s xs ys key rc holds b v e h l = goes_on s xs ys key rc holds v e (ground arith)
one_goes_on s xs ys key rc leaves b v e h l = goes_on s xs ys key rc leaves v e (ground arith)
one_goes_on s xs ys key rc gone b v e h l = cc

pub no_deadlock : (s : System) → IsValid s → 1 ≤ work s.callers → (t : System) × Proceeds s t
no_deadlock s v w =
    let (xs, c, ys, e, h) = count-split is_busy s.callers (busy_of_work s.callers w) in
    one_goes_on s xs ys c.key c.rc c.phase (s.kl.heap c.rc).locked v e h refl

-- A run of the callers that are there.
pub data Run (s : System) : ℕ → System → Type 0 where
  here : Run s 0 s
  next : (n : ℕ) (t u : System) → Run s n t → Proceeds t u → Run s (n + 1) u

Run-Reach : (s : System) (n : ℕ) (t : System) → Reach s → Run s n t → Reach t
Run-Reach s n t r here = r
Run-Reach s n t r (next m u w run p) = continues u w (Run-Reach s m u r run) (proceeds p)

Run-work : (s : System) (n : ℕ) (t : System) → Run s n t → n + work t.callers ≤ work s.callers
Run-work s n t here = omega arith
Run-work s n t (next m u w run p) = omega (arith, Run-work s m u run, Proceeds-work u w p)

nobody_wants : (cs : List Caller) (k : Text) → work cs ≡ 0 → count (wants_key k) cs ≡ 0
nobody_wants [] k e = refl
nobody_wants (c ∷ cs) k e = ground (arith, e, nobody_wants cs k)

no_entries : (m : Map Text ℕ) → ((k : Text) → lookup k m ≡ none) → m ≡ []
unfolding lookup
no_entries [] h = refl
no_entries ((k, rc) ∷ m) h = ground (arith, h k, text_eq_iff k k)

work-le : (cs : List Caller) → work cs ≤ 3 * length cs
work-le [] = omega arith
work-le (c ∷ cs) = ground (arith, work-le cs)

ends :
    (t : System)
    → Reach t
    → (w : ℕ) → work t.callers ≡ w
    → ((u : System) × Proceeds t u) ⊎ ((work t.callers ≡ 0) × (t.kl.locks ≡ []))
ends t r zero e =
    inr (e, no_entries t.kl.locks (λ k. (Reach-no_leak t k r).1 (nobody_wants t.callers k e)))
ends t r (suc w) e = inl (no_deadlock t (Reach-IsValid t r) (omega (arith, e)))

-- If no more calls come, then in whatever order the callers go on, they take at most three steps each, and
-- when none of them can go on, each is done with its lock and the map is empty.
pub Run-ends :
    (s t : System) (n : ℕ)
    → Reach s
    → Run s n t
    → (n ≤ 3 * length s.callers)
      × (((u : System) × Proceeds t u) ⊎ ((work t.callers ≡ 0) × (t.kl.locks ≡ [])))
Run-ends s t n r run = (
  omega (arith, Run-work s n t run, work-le s.callers),
  ends t (Run-Reach s n t r run) (work t.callers) refl,
)
