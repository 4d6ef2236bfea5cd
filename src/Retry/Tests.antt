-- ===== src/Retry/Tests.antt =====
-- A call that succeeds at the third attempt, and the theorems applied there.
use tsdproxy.Common.{◌*◌, ◌≡◌, refl, false, [], ◌∷◌, arith, ◌==◌}
use tsdproxy.Health.{int64, second}
use tsdproxy.Retry.{Surroundings, success, grow_backoff, retry_from, retry}
use tsdproxy.Retry.Attempts.{IsRetried, retry-IsRetried}

abbrev third_time : Surroundings
third_time = record { canceled = λ i. false; succeeds = λ i. i == 2; canceled_waiting = λ i. false }

third_time_run :
    retry third_time 5 second
    ≡ record { outcome = success; calls = 3; waits = second ∷ 2 * second ∷ [] }
unfolding retry retry_from grow_backoff int64
third_time_run = refl

retry-IsRetried_example : IsRetried third_time second 0 5 (retry third_time 5 second)
retry-IsRetried_example = retry-IsRetried third_time 5 second (omega arith) (omega arith)
