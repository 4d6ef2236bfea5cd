-- ===== src/Retry.antt =====
-- internal/dnsproviders/retry.go: the retries of a DNS provider's calls, with exponential backoff.
-- What the operation and the context answer at each attempt is an argument. `maxRetries` and
-- `initialBackoff` are not negative.
pub mod Attempts
mod Tests
use tsdproxy.Common.{
  ℕ, zero, suc, ◌+◌, ◌*◌, Bool, true, false, not, ◌||◌, List, [], ◌∷◌, if◌then◌else◌,
}
use tsdproxy.Common.Int.{ℤ, pos, pos_part, ltb_ℤ}
use tsdproxy.Health.{int64, second}

abbrev pub max_backoff : ℕ
max_backoff = 30 * second

abbrev pub backoff_multiplier : ℕ
backoff_multiplier = 2

-- What happens at an attempt: the context before it, the operation, the context while waiting.
pub record Surroundings : Type 0 where
  pub canceled : ℕ → Bool
  pub succeeds : ℕ → Bool
  pub canceled_waiting : ℕ → Bool

pub data Outcome : Type 0 where
  success context_error retries_exceeded : Outcome

-- The inner loop, with the iterations left.
unfoldable pub grow_backoff : ℕ → ℕ → ℕ
grow_backoff zero backoff = backoff
grow_backoff (suc n) backoff =
    let next = int64 (backoff * backoff_multiplier) in
    let rest = grow_backoff n (pos_part next) in
    if not (ltb_ℤ (pos backoff) next) || ltb_ℤ (pos max_backoff) next then max_backoff else rest

-- What was done: the calls of the operation, and the waits in order.
pub record Trace : Type 0 where
  pub outcome : Outcome
  pub calls : ℕ
  pub waits : List ℕ

abbrev pub called : Trace → Trace
called t = record t { calls = suc t.calls }

-- The loop from an attempt on, with the retries left behind it.
unfoldable pub retry_from : Surroundings → ℕ → ℕ → ℕ → Trace
retry_from env initial attempt zero =
    if env.canceled attempt
    then record { outcome = context_error; calls = 0; waits = [] }
    else if env.succeeds attempt
    then record { outcome = success; calls = 1; waits = [] }
    else record { outcome = retries_exceeded; calls = 1; waits = [] }
retry_from env initial attempt (suc left) =
    let wait = grow_backoff attempt initial in
    let rest = retry_from env initial (suc attempt) left in
    if env.canceled attempt
    then record { outcome = context_error; calls = 0; waits = [] }
    else if env.succeeds attempt
    then record { outcome = success; calls = 1; waits = [] }
    else if env.canceled_waiting attempt
    then record { outcome = context_error; calls = 1; waits = wait ∷ [] }
    else record { outcome = rest.outcome; calls = suc rest.calls; waits = wait ∷ rest.waits }

unfoldable pub retry : Surroundings → ℕ → ℕ → Trace
unfolding retry_from
retry env max_retries initial = retry_from env initial 0 max_retries
