-- ===== src/Health/Backoff.antt =====
-- The durations of the health checker: exponential backoff and clamping, with no overflow.
use tsdproxy.Common.{
  ℕ, ◌*◌, ◌/◌, ◌^◌, ◌≤◌, ◌<◌, ◌≡◌, inl, inr, ◌&&◌, arith, ltb, min, max, ltb→lt, if◌then◌else◌,
  Bool-cases,
}
use tsdproxy.Common.Int.{ℤ, pos, pos_part, ltb_ℤ, ◌≤ℤ◌}
use native.Mathlib.Nat.{pow-le-pow_right, div-lt_iff_lt-mul}
use tsdproxy.Health.{second, max_backoff, int64, next_backoff, duration_of_seconds, clamp_duration}

int64_small : (n : ℕ) → n < 2 ^ 63 → int64 n ≡ pos n
unfolding int64
int64_small n h = ground arith

-- The part behind the test of the attempt, for a shift that fits.
backoff_at :
    (interval s : ℕ)
    → 0 < s
    → (if ltb_ℤ (pos 0) (pos s) && ltb (max_backoff / pos_part (pos s)) interval
        then pos max_backoff
        else (let d = int64 (interval * pos_part (pos s)) in
            if ltb_ℤ (pos max_backoff) d then pos max_backoff else d))
      ≡ pos (min (interval * s) max_backoff)
backoff_at interval s h =
    let iff = div-lt_iff_lt-mul {k = s} {x = max_backoff} {y = interval} h in
    elim (Bool-cases (ltb (max_backoff / s) interval)) [
      | inl over ↦ ground (arith, iff.0)
      | inr fits ↦
          let small : interval * s ≤ max_backoff = ground (arith, iff.1) in
          rw (int64_small (interval * s) (omega arith)) (ground arith)
    ]

large_shift : (interval attempt : ℕ) → 1 ≤ interval → 62 < attempt → 2 ^ 63 ≤ interval * 2 ^ attempt
large_shift interval attempt h k =
    let p : 2 ^ 63 ≤ 2 ^ attempt = pow-le-pow_right (omega arith) k in grind arith

below : {n : ℕ} → n ≤ 2 ^ 62 → n < 2 ^ 63
below h = omega arith

duration_small : (n : ℕ) → n * second < 2 ^ 63 → duration_of_seconds (pos n) ≡ pos (n * second)
unfolding duration_of_seconds
duration_small n h = int64_small (n * second) h

-- For a positive interval and any attempt the wait is the interval doubled once for each attempt, cut
-- to 24 hours: nothing overflows.
pub next_backoff_lem :
    (interval attempt : ℕ)
    → 1 ≤ interval
    → next_backoff interval attempt ≡ pos (min (interval * 2 ^ attempt) max_backoff)
unfolding next_backoff
next_backoff_lem interval attempt h = elim (Bool-cases (ltb 62 attempt)) [
  | inl far ↦
      let p = large_shift interval attempt h (ltb→lt 62 attempt far) in rw far (ground arith)
  | inr near ↦
      let p : 2 ^ attempt ≤ 2 ^ 62 =
        pow-le-pow_right {n = 2} (omega arith) {i = attempt} {j = 62} (ground arith) in
      let q : 2 ^ 0 ≤ 2 ^ attempt =
        pow-le-pow_right {n = 2} (omega arith) {i = 0} {j = attempt} (omega arith) in
      let r = backoff_at interval (2 ^ attempt) q in
      rw (near, int64_small (2 ^ attempt) (below p)) r
]

-- For any number of seconds, negative ones and those whose nanoseconds overflow included, the clamped
-- duration lies between the bounds: a ticker gets a positive interval.
pub clamp_duration_bounds :
    (seconds : ℤ) (lo hi : ℕ)
    → lo ≤ hi
    → (pos lo ≤ℤ clamp_duration seconds lo hi) × (clamp_duration seconds lo hi ≤ℤ pos hi)
unfolding clamp_duration
clamp_duration_bounds seconds lo hi h = (ground arith, ground arith)

-- A number of seconds whose nanoseconds fit an int64 is cut to the bounds.
pub clamp_duration_exact :
    (n lo hi : ℕ)
    → lo ≤ hi
    → n * second < 2 ^ 63
    → clamp_duration (pos n) lo hi ≡ pos (max lo (min (n * second) hi))
unfolding clamp_duration
clamp_duration_exact n lo hi h fits = rw (duration_small n fits) (ground arith)
