-- ===== src/Health/Checks.antt =====
-- How often, and when, the health checker asks for the target to be resolved again.
use tsdproxy.Common.{
  ℕ, ◌+◌, ◌*◌, ◌^◌, ◌≤◌, ◌<◌, ◌≡◌, refl, Bool, true, false, List, [], ◌∷◌, some, arith, ◌==◌, min,
  if◌then◌else◌, All, length,
}
use tsdproxy.Health.{HealthChecker, Probe, is_healthy, backoff_of, check, max_backoff}
use tsdproxy.Health.Backoff.{next_backoff_lem}

abbrev pub as_number : Bool → ℕ
as_number true = 1
as_number false = 0

-- The rounds of the ticker, with the number of re-resolutions.
unfoldable pub run_checks : List Probe → HealthChecker → HealthChecker × ℕ
run_checks [] hc = (hc, 0)
run_checks (p ∷ ps) hc =
    let (hc', called) = check p hc in
    let (last, calls) = run_checks ps hc' in (last, as_number called + calls)

-- The wait after a re-resolution: the configured one, or the interval doubled with each attempt.
abbrev pub wait_of : HealthChecker → ℕ
wait_of hc =
    if hc.cooldown == 0 then min (hc.interval * 2 ^ hc.retry_attempt) max_backoff else hc.cooldown

backoff_of_lem : (hc : HealthChecker) → 1 ≤ hc.interval → backoff_of hc ≡ wait_of hc
unfolding backoff_of
backoff_of_lem hc h = ground (arith, next_backoff_lem hc.interval hc.retry_attempt h)

check-threshold :
    (p : Probe) (hc : HealthChecker) → (check p hc).0.fail_threshold ≡ hc.fail_threshold
unfolding check
check-threshold p hc = ground arith

check-failures :
    (p : Probe) (hc : HealthChecker)
    → as_number (check p hc).1 * hc.fail_threshold + (check p hc).0.consecutive_failures
      ≤ hc.consecutive_failures + 1
unfolding check
check-failures p hc = grind arith

-- Every re-resolution is paid for by as many probes as the threshold says: over any rounds, the calls
-- times the threshold, with the failures left, are no more than the failures before and the rounds.
pub run_checks-threshold :
    (ps : List Probe) (hc : HealthChecker)
    → (run_checks ps hc).1 * hc.fail_threshold + (run_checks ps hc).0.consecutive_failures
      ≤ hc.consecutive_failures + length ps
unfolding run_checks
run_checks-threshold [] hc = omega arith
run_checks-threshold (p ∷ ps) hc =
    let rest = run_checks-threshold ps (check p hc).0 in
    grind (arith, check-failures p hc, check-threshold p hc, rest)

-- A probe that fails before an instant.
abbrev pub FailsBefore : ℕ → Probe → Type 0
FailsBefore until p = (is_healthy p.found ≡ false) × (p.now < until)

check_in_cooldown :
    (until : ℕ) (p : Probe) (hc : HealthChecker)
    → hc.cooldown_until ≡ some until
    → FailsBefore until p
    → check p hc ≡ (record hc { result = p.found }, false)
unfolding check
check_in_cooldown until p hc e h = ground arith

quiet_until :
    (until : ℕ) (ps : List Probe) (hc : HealthChecker)
    → hc.cooldown_until ≡ some until
    → All (FailsBefore until) ps
    → (run_checks ps hc).1 ≡ 0
unfolding run_checks
quiet_until until [] hc e h = refl
quiet_until until (p ∷ ps) hc e (here, h) =
    rw (check_in_cooldown until p hc e here)
      (omega (arith, quiet_until until ps (record hc { result = p.found }) e h))

check-calls :
    (p : Probe) (hc : HealthChecker)
    → (check p hc).1 ≡ true
    → (check p hc).0.cooldown_until ≡ some (p.later + backoff_of hc)
unfolding check
check-calls p hc h = ground arith

-- After a re-resolution, probes that fail call for no other one before the wait is over: the configured
-- cooldown, or the interval doubled with each attempt up to 24 hours.
pub run_checks-cooldown :
    (p : Probe) (ps : List Probe) (hc : HealthChecker)
    → 1 ≤ hc.interval
    → (check p hc).1 ≡ true
    → All (FailsBefore (p.later + wait_of hc)) ps
    → (run_checks ps (check p hc).0).1 ≡ 0
run_checks-cooldown p ps hc pos_interval called h =
    quiet_until (p.later + wait_of hc) ps (check p hc).0
      (rw (← backoff_of_lem hc pos_interval) (check-calls p hc called)) h

-- Probes that fail.
abbrev pub Fails : Probe → Type 0
Fails p = is_healthy p.found ≡ false

check-retry_attempt :
    (p : Probe) (hc : HealthChecker)
    → Fails p
    → hc.redetects ≡ true
    → ((check p hc).0.retry_attempt ≡ hc.retry_attempt + as_number (check p hc).1)
      × ((check p hc).0.redetects ≡ true)
unfolding check
check-retry_attempt p hc h e = ground arith

-- While all probes fail, the attempts that the backoff doubles by are exactly the re-resolutions made.
pub run_checks-retry_attempt :
    (ps : List Probe) (hc : HealthChecker)
    → hc.redetects ≡ true
    → All Fails ps
    → (run_checks ps hc).0.retry_attempt ≡ hc.retry_attempt + (run_checks ps hc).1
unfolding run_checks
run_checks-retry_attempt [] hc e h = omega arith
run_checks-retry_attempt (p ∷ ps) hc e (here, h) =
    let step = check-retry_attempt p hc here e in
    omega (arith, step.0, run_checks-retry_attempt ps (check p hc).0 step.1 h)
