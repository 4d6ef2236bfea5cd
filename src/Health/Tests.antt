-- ===== src/Health/Tests.antt =====
-- The health checker run on short sequences of probes, and the theorems applied there.
use tsdproxy.Common.{ℕ, ◌≡◌, refl, true, false, [], ◌∷◌, Option, none, some, arith, Text}
use tsdproxy.Common.Maps.{Map}
use tsdproxy.Strings.{codes}
use tsdproxy.Port.Defs.{Url, PortConfig, proto_http, default_port_config}
use tsdproxy.Health.{
  HealthChecker, health_healthy, health_down, Probe, check, next_backoff, is_healthy, in_cooldown,
  backoff_of, int64,
}
use tsdproxy.Health.Checks.{run_checks, run_checks-cooldown}

abbrev demo_checker : HealthChecker
demo_checker = record {
  target = codes "http://host";
  result = health_healthy;
  interval = 30;
  cooldown = 0;
  fail_threshold = 2;
  cooldown_until = none;
  retry_attempt = 0;
  consecutive_failures = 1;
  redetects = true;
}

abbrev failing : ℕ → Probe
failing t = record { found = health_down; now = t; later = t; canceled = false }

-- The second failure calls for a re-resolution, and the failures behind it wait for 30.
calls_once : (run_checks (failing 0 ∷ failing 10 ∷ failing 20 ∷ []) demo_checker).1 ≡ 1
unfolding run_checks check is_healthy in_cooldown backoff_of next_backoff int64
calls_once = refl

run_checks-cooldown_example :
    (run_checks (failing 10 ∷ failing 29 ∷ []) (check (failing 0) demo_checker).0).1 ≡ 0
unfolding check is_healthy in_cooldown
run_checks-cooldown_example =
    run_checks-cooldown (failing 0) (failing 10 ∷ failing 29 ∷ []) demo_checker (omega arith) refl
      ((refl, omega arith), ((refl, omega arith), tt))

-- A parser that takes the text for an http URL of one host.
abbrev demo_url : Text → Option Url
demo_url s = some (record { scheme = proto_http; host = codes "host"; text = s })

abbrev demo_ports : Map Text PortConfig
demo_ports =
    (codes "b", default_port_config (codes "b")) ∷ (codes "a", default_port_config (codes "a")) ∷ []
