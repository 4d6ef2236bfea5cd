-- ===== src/Retry/Attempts.antt =====
-- How often a call is retried, and how long is waited before each retry.
use tsdproxy.Common.{
  ℕ, zero, suc, ◌+◌, ◌*◌, ◌^◌, ◌≤◌, ◌<◌, ◌≡◌, refl, ap, ◌∙◌, min, Bool, true, false, List, [], ◌∷◌,
  arith, if_both, Bool-cases, inl, inr,
}
use tsdproxy.Common.Int.{pos, ltb_ℤ}
use native.Mathlib.Nat.{pow-le-pow_right}
use tsdproxy.Health.{int64}
use tsdproxy.Retry.{
  max_backoff, backoff_multiplier, Surroundings, success, context_error, retries_exceeded,
  grow_backoff, Trace, retry_from, retry,
}

doubled : (b : ℕ) → b ≤ max_backoff → int64 (b * backoff_multiplier) ≡ pos (b * 2)
unfolding int64
doubled b h = ground arith

power_pos : (n : ℕ) → 1 ≤ 2 ^ n
power_pos n = pow-le-pow_right {n = 2} (omega arith) {i = 0} {j = n} (omega arith)

more : (n b : ℕ) → 1 ≤ 2 ^ n → b * 2 ≤ b * 2 ^ suc n
more n b h = grind arith

shifted : (n b : ℕ) → b * 2 * 2 ^ n ≡ b * 2 ^ suc n
shifted n b = grind arith

-- For a positive backoff of at most 30 seconds, doubling it in the loop, with its tests for overflow and
-- for the limit, gives the backoff times the power of two, cut to 30 seconds.
pub grow_backoff_lem :
    (n b : ℕ) → 1 ≤ b → b ≤ max_backoff → grow_backoff n b ≡ min (b * 2 ^ n) max_backoff
unfolding grow_backoff
grow_backoff_lem zero b h k = ground arith
grow_backoff_lem (suc n) b h k =
    let one = power_pos n in
    elim (Bool-cases (ltb_ℤ (pos max_backoff) (pos (b * 2)))) [
      | inl over ↦ rw (doubled b k, over) (let m = more n b one in ground arith)
      | inr fits ↦
          rw (doubled b k, fits)
            (let rest = grow_backoff_lem n (b * 2) (omega arith) (ground arith) in
              let e = shifted n b in ground (arith, rest, e))
    ]

-- The waits before the retries from an attempt on.
abbrev pub IsWaits : ℕ → ℕ → List ℕ → Type 0
IsWaits initial attempt [] = Unit
IsWaits initial attempt (w ∷ ws) =
    (w ≡ min (initial * 2 ^ attempt) max_backoff) × IsWaits initial (suc attempt) ws

-- What a run of the loop from an attempt on has done.
pub record IsRetried (env : Surroundings) (initial first left : ℕ) (t : Trace) : Type 0 where
  pub bounded : t.calls ≤ suc left
  pub waits : IsWaits initial first t.waits
  -- only the last call can have succeeded
  pub failed : (j : ℕ) → suc j < t.calls → env.succeeds (first + j) ≡ false
  pub succeeded :
      t.outcome ≡ success → (i : ℕ) × (t.calls ≡ suc i) × (env.succeeds (first + i) ≡ true)
  pub exceeded :
      t.outcome ≡ retries_exceeded → (t.calls ≡ suc left) × (env.succeeds (first + left) ≡ false)

at_same :
    (env : Surroundings) {a c : ℕ} {b : Bool} → c ≡ a → env.succeeds a ≡ b → env.succeeds c ≡ b
at_same env e h = ap env.succeeds e ∙ h

stopped :
    (env : Surroundings) (initial first left : ℕ)
    → IsRetried env initial first left (record { outcome = context_error; calls = 0; waits = [] })
stopped env initial first left = record {
  bounded = omega arith;
  waits = tt;
  failed = λ j h. absurd (omega (arith, h));
  succeeded = λ e. absurd (ground (arith, e));
  exceeded = λ e. absurd (ground (arith, e));
}

done :
    (env : Surroundings) (initial first left : ℕ)
    → env.succeeds first ≡ true
    → IsRetried env initial first left (record { outcome = success; calls = 1; waits = [] })
done env initial first left h = record {
  bounded = omega arith;
  waits = tt;
  failed = λ j k. absurd (omega (arith, k));
  succeeded = λ e. (0, refl, at_same env (omega arith) h);
  exceeded = λ e. absurd (ground (arith, e));
}

failed_next :
    (env : Surroundings) (first calls : ℕ)
    → env.succeeds first ≡ false
    → ((j : ℕ) → suc j < calls → env.succeeds (suc first + j) ≡ false)
    → (j : ℕ) → suc j < suc calls
    → env.succeeds (first + j) ≡ false
failed_next env first calls e f zero h = at_same env (omega arith) e
failed_next env first calls e f (suc j) h = at_same env (omega arith) (f j (omega (arith, h)))

again :
    (env : Surroundings) (initial first left : ℕ) (rest : Trace)
    → env.succeeds first ≡ false
    → grow_backoff first initial ≡ min (initial * 2 ^ first) max_backoff
    → IsRetried env initial (suc first) left rest
    → IsRetried env initial first (suc left) (record {
      outcome = rest.outcome;
      calls = suc rest.calls;
      waits = grow_backoff first initial ∷ rest.waits;
    })
again env initial first left rest e w r = record {
  bounded = omega (arith, r.bounded);
  waits = (w, r.waits);
  failed = failed_next env first rest.calls e r.failed;
  succeeded = λ o. let (i, n, s) = r.succeeded o in (suc i, ap suc n, at_same env (omega arith) s);
  exceeded = λ o. let (n, s) = r.exceeded o in (ap suc n, at_same env (omega arith) s);
}

retry_from-IsRetried :
    (env : Surroundings) (initial first left : ℕ)
    → 1 ≤ initial
    → initial ≤ max_backoff
    → IsRetried env initial first left (retry_from env initial first left)
unfolding retry_from
retry_from-IsRetried env initial first zero h k =
    let P = IsRetried env initial first zero in
    if_both P (env.canceled first) (λ _. stopped env initial first zero)
      (λ _.
        if_both P (env.succeeds first) (λ e. done env initial first zero e)
          (λ e. record {
            bounded = omega arith;
            waits = tt;
            failed = λ j l. absurd (omega (arith, l));
            succeeded = λ o. absurd (ground (arith, o));
            exceeded = λ o. (refl, at_same env (omega arith) e);
          }))
retry_from-IsRetried env initial first (suc left) h k =
    let P = IsRetried env initial first (suc left) in
    let r = retry_from-IsRetried env initial (suc first) left h k in
    let w = grow_backoff_lem first initial h k in
    if_both P (env.canceled first) (λ _. stopped env initial first (suc left))
      (λ _.
        if_both P (env.succeeds first) (λ e. done env initial first (suc left) e)
          (λ e.
            if_both P (env.canceled_waiting first)
              (λ _. record {
                bounded = omega arith;
                waits = (w, tt);
                failed = λ j l. absurd (omega (arith, l));
                succeeded = λ o. absurd (ground (arith, o));
                exceeded = λ o. absurd (ground (arith, o));
              })
              (λ _. again env initial first left _ e w r)))

-- For any operation and any context, and a positive initial backoff of at most 30 seconds, `Retry` calls
-- the operation at most once more than it has retries, waits the initial backoff doubled once for each
-- attempt and cut to 30 seconds, and calls no more after a success; it reports a success only if the last
-- call was one, and that the retries are exceeded only if all were used and the last call failed.
pub retry-IsRetried :
    (env : Surroundings) (max_retries initial : ℕ)
    → 1 ≤ initial
    → initial ≤ max_backoff
    → IsRetried env initial 0 max_retries (retry env max_retries initial)
unfolding retry
retry-IsRetried env max_retries initial h k = retry_from-IsRetried env initial 0 max_retries h k
