-- ===== src/Proxy/Lifecycle.antt =====
-- The lifecycle operations: `Start`, `Pause`, `Resume` and `Close`.
use tsdproxy.Common.{
  ℕ, suc, Bool, true, false, ◌&&◌, ◌||◌, not, List, [], ◌∷◌, Option, none, some, ltb, ◌==◌,
  if◌then◌else◌, length, Text, text_eq, text_Eq,
}
use tsdproxy.Common.Maps.{Map, lookup}
use tsdproxy.Port.Defs.{PortConfig, proto_udp}
use tsdproxy.Proxy.Defs.{
  ProxyStatus, running, stopping, stopped, error, paused, same_status, ProviderEvent, Handler,
  udp_handler, Proxy, init_ports, set_status, handle_events,
}

pub data LifecycleError : Type 0 where
  no_ports provider_failed all_listeners_failed : LifecycleError
  already_paused not_paused : LifecycleError
  not_running : ProxyStatus → LifecycleError

-- `startPacketPort` serves UDP handlers only, and closes the connection of any other.
abbrev pub serves_packets : Option Handler → Bool
serves_packets (some udp_handler) = true
serves_packets _ = false

abbrev pub serves_streams : Option Handler → Bool
serves_streams none = false
serves_streams (some h) = true

unfoldable pub is_served : Text → PortConfig → Proxy → Bool
is_served k c p =
    if text_eq c.proxy_protocol proto_udp
    then serves_packets (lookup k p.ports)
    else serves_streams (lookup k p.ports)

-- `startPort` or `startPacketPort`, for a port that got its listener.
unfoldable pub start_port : Text → PortConfig → Proxy → Proxy
start_port k c p = if is_served k c p then record p { serving = k ∷ p.serving } else p

-- The loop over the configured ports, with the count of listener errors; `listens` says which listeners
-- the provider grants.
unfoldable pub listen_loop :
    (Text → PortConfig → Bool) → Map Text PortConfig → ℕ → Proxy → Proxy × ℕ
listen_loop listens [] errors p = (p, errors)
listen_loop listens ((k, c) ∷ m) errors p =
    listen_loop listens m (if listens k c then errors else suc errors)
      (if listens k c then start_port k c p else p)

abbrev pub all_failed : ℕ → ℕ → Bool
all_failed errors total = ltb 0 errors && errors == total

unfoldable pub start_health_checker : Bool → Proxy → Proxy
start_health_checker monitored p = record p { health_running = monitored || p.health_running }

unfoldable pub stop_health_checker : Proxy → Proxy
stop_health_checker p = record p { health_running = false }

-- `Start`: `starts` is the provider's answer, and `events` arrive before the listeners are made.
unfoldable pub start :
    Bool
    → Bool
    → (Text → PortConfig → Bool)
    → List ProviderEvent
    → Proxy
    → Proxy × Option LifecycleError
unfolding start_health_checker
start starts monitored listens events p =
    if length p.ports == 0
    then (p, some no_ports)
    else if not starts
    then (p, some provider_failed)
    else let (q, errors) =
        listen_loop listens p.config_ports 0
          (handle_events events (start_health_checker monitored p)) in
      (q, if all_failed errors (length p.config_ports) then some all_listeners_failed else none)

unfoldable pub pause : ℕ → Proxy → Proxy × Option LifecycleError
unfolding stop_health_checker
pause now p =
    if p.is_paused
    then (p, some already_paused)
    else if not (same_status p.status running)
    then (p, some (not_running p.status))
    else (
      set_status now paused (record (stop_health_checker (record p { is_paused = true })) {
        ports = [];
        serving = [];
      }),
      none,
    )

-- The end of `Resume`, behind the loop over the ports.
unfoldable pub resume_end : ℕ → Bool → ℕ → Proxy → Proxy × Option LifecycleError
unfolding start_health_checker
resume_end now monitored errors p =
    if all_failed errors (length p.config_ports)
    then (set_status now error (record p { is_paused = true }), some all_listeners_failed)
    else (set_status now running (start_health_checker monitored p), none)

-- `Resume`: `events` arrive while it makes the listeners.
unfoldable pub resume :
    ℕ
    → Bool
    → (Text → PortConfig → Bool)
    → List ProviderEvent
    → Proxy
    → Proxy × Option LifecycleError
unfolding resume_end
resume now monitored listens events p =
    if not p.is_paused
    then (p, some not_paused)
    else let (q, errors) =
        listen_loop listens p.config_ports 0
          (handle_events events (init_ports (record p { is_paused = false }))) in
      resume_end now monitored errors q

-- `Close` runs once: `events` are those that the goroutine still takes before it ends.
unfoldable pub close : ℕ → List ProviderEvent → Proxy → Proxy
unfolding stop_health_checker
close now events p =
    if p.closed
    then p
    else set_status now stopped (
        handle_events events
          (record (stop_health_checker
            (set_status now stopping (record p { closed = true; is_paused = false }))) {
              canceled = true;
              serving = [];
            }))
