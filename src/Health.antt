-- ===== src/Health.antt =====
-- internal/proxymanager/health.go: the health checker of a proxy.
--
-- Durations are nanoseconds in an `int64`, with its wrap-around written out; instants are numbers.
-- A probe of the target is an input: its result and the clock's readings.
pub mod Backoff
pub mod Checks
pub mod Selection
mod Tests
use tsdproxy.Common.{
  ℕ, zero, suc, ◌+◌, ◌-◌, ◌*◌, ◌/◌, ◌%◌, ◌^◌, Bool, true, false, not, ◌&&◌, ◌||◌, List, [], ◌∷◌,
  ◌++◌, Option, none, some, ltb, leb, ◌==◌, if◌then◌else◌, Text, text_eq, text_Eq,
}
use tsdproxy.Common.Int.{ℤ, pos, negsuc, pos_part, ltb_ℤ}
use tsdproxy.Common.Maps.{Map, lookup, insert}
use tsdproxy.Port.Defs.{Url, PortConfig, get_first_target, replace_target, proto_http, proto_https}

pub data HealthStatus : Type 0 where
  health_unknown health_healthy health_down : HealthStatus

abbrev pub second : ℕ
second = 10 ^ 9

abbrev pub hour : ℕ
hour = 3600 * second

abbrev pub max_backoff : ℕ
max_backoff = 24 * hour

abbrev pub health_check_max_interval : ℕ
health_check_max_interval = hour

abbrev pub health_check_max_cooldown : ℕ
health_check_max_cooldown = 24 * hour

abbrev pub max_backoff_shift : ℕ
max_backoff_shift = 62

-- The integer that the low 64 bits of a number stand for.
unfoldable pub int64 : ℕ → ℤ
int64 n = let w = n % 2 ^ 64 in if ltb w (2 ^ 63) then pos w else negsuc (2 ^ 64 - w - 1)

-- `shift` is positive for every attempt that gets there; its test is the source's.
unfoldable pub next_backoff : ℕ → ℕ → ℤ
next_backoff interval attempt =
    if ltb max_backoff_shift attempt
    then pos max_backoff
    else let shift = int64 (2 ^ attempt) in
      if ltb_ℤ (pos 0) shift && ltb (max_backoff / pos_part shift) interval
      then pos max_backoff
      else let d = int64 (interval * pos_part shift) in
        if ltb_ℤ (pos max_backoff) d then pos max_backoff else d

-- `time.Duration(seconds) * time.Second`
unfoldable pub duration_of_seconds : ℤ → ℤ
duration_of_seconds (pos n) = int64 (n * second)
duration_of_seconds (negsuc n) = int64 (2 ^ 64 - (n + 1) * second % 2 ^ 64)

unfoldable pub clamp_duration : ℤ → ℕ → ℕ → ℤ
clamp_duration seconds min_val max_val =
    let d = duration_of_seconds seconds in
    if ltb_ℤ d (pos min_val) then pos min_val else if ltb_ℤ (pos max_val) d then pos max_val else d

-- What `check` reads and writes. `cooldown_until` is `none` for the zero time, and `redetects` tells
-- that `onRedetect` is set.
pub record HealthChecker : Type 0 where
  pub target : Text
  pub result : HealthStatus
  pub interval : ℕ
  pub cooldown : ℕ
  pub fail_threshold : ℕ
  pub cooldown_until : Option ℕ
  pub retry_attempt : ℕ
  pub consecutive_failures : ℕ
  pub redetects : Bool

-- One round: what the probe found, the readings of `time.Now()` before and after the callback, and
-- whether the checker's context is canceled.
pub record Probe : Type 0 where
  pub found : HealthStatus
  pub now : ℕ
  pub later : ℕ
  pub canceled : Bool

unfoldable pub is_healthy : HealthStatus → Bool
is_healthy health_healthy = true
is_healthy _ = false

unfoldable pub in_cooldown : Option ℕ → ℕ → Bool
in_cooldown none now = false
in_cooldown (some until) now = ltb now until

unfoldable pub backoff_of : HealthChecker → ℕ
backoff_of hc =
    if hc.cooldown == 0 then pos_part (next_backoff hc.interval hc.retry_attempt) else hc.cooldown

-- `check`, with whether the re-resolution callback was called.
unfoldable pub check : Probe → HealthChecker → HealthChecker × Bool
unfolding is_healthy in_cooldown
check p hc =
    if is_healthy p.found
    then (
      record hc {
        result = p.found;
        consecutive_failures = 0;
        retry_attempt = 0;
        cooldown_until = none;
      },
      false,
    )
    else if in_cooldown hc.cooldown_until p.now
    then (record hc { result = p.found }, false)
    else if not p.canceled && leb hc.fail_threshold (hc.consecutive_failures + 1)
    then (
      record hc {
        result = p.found;
        consecutive_failures = 0;
        retry_attempt = hc.retry_attempt + 1;
        cooldown_until = some (p.later + backoff_of hc);
      },
      hc.redetects,
    )
    else (record hc { result = p.found; consecutive_failures = hc.consecutive_failures + 1 }, false)

-- The order of Go's strings.
unfoldable pub text_leb : Text → Text → Bool
text_leb [] t = true
text_leb (c ∷ s) [] = false
text_leb (c ∷ s) (d ∷ t) = if ltb c d then true else if ltb d c then false else text_leb s t

-- `sort.Strings`, over the entries that the keys stand for.
unfoldable pub insert_sorted : Text × PortConfig → Map Text PortConfig → Map Text PortConfig
unfolding text_leb
insert_sorted e [] = e ∷ []
insert_sorted e (f ∷ m) = if text_leb e.0 f.0 then e ∷ f ∷ m else f ∷ insert_sorted e m

unfoldable pub sort_ports : Map Text PortConfig → Map Text PortConfig
unfolding insert_sorted
sort_ports [] = []
sort_ports (e ∷ m) = insert_sorted e (sort_ports m)

-- The address that is probed: the whole URL for HTTP, else its host.
unfoldable pub check_target : Text → Url → Text
check_target scheme u =
    if text_eq scheme proto_http || text_eq scheme proto_https then u.text else u.host

module _ (parse_url : Text → Option Url) where
  -- The target of a port that can be monitored.
  unfoldable pub monitored : PortConfig → Option Url
  monitored c = if c.is_redirect then none else elim (get_first_target parse_url c) [
    | none ↦ none
    | some u ↦ if text_eq u.host [] then none else some u
  ]

  -- The loop of `startHealthChecker`: the first port in the order of names that can be monitored.
  unfoldable pub select_port : Map Text PortConfig → Option (Text × PortConfig × Url)
  unfolding monitored
  select_port [] = none
  select_port ((k, c) ∷ m) = elim (monitored c) [ some u ↦ some (k, c, u) | none ↦ select_port m ]

  unfoldable pub health_port : Map Text PortConfig → Option (Text × PortConfig × Url)
  unfolding select_port
  health_port ports = select_port (sort_ports ports)
