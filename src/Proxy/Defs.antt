-- ===== src/Proxy/Defs.antt =====
-- The state of a proxy, its status and its port handlers.
use mathlib.Core.Option
use tsdproxy.Common.{
  Option, none, some, zero, suc, ℕ, ◌-◌, Bool, false, ◌&&◌, ◌||◌, not, List, [], ◌∷◌, ◌++◌, ltb,
  ◌==◌, if◌then◌else◌, length, drop, Text, text_eq, text_Eq,
}
use tsdproxy.Common.Maps.{Map, insert}
use tsdproxy.Port.Defs.{PortConfig, proto_http, proto_https, proto_udp}

pub data ProxyStatus : Type 0 where
  initializing starting authenticating running stopping stopped : ProxyStatus
  error paused awaiting_approval auth_failed device_conflict reconciling : ProxyStatus

-- The value of the constant.
abbrev pub status_number : ProxyStatus → ℕ
status_number initializing = 0
status_number starting = 1
status_number authenticating = 2
status_number running = 3
status_number stopping = 4
status_number stopped = 5
status_number error = 6
status_number paused = 7
status_number awaiting_approval = 8
status_number auth_failed = 9
status_number device_conflict = 10
status_number reconciling = 11

abbrev pub same_status : ProxyStatus → ProxyStatus → Bool
same_status s t = status_number s == status_number t

pub record StatusTransition : Type 0 where
  pub status : ProxyStatus
  pub timestamp : ℕ

-- What `onUpdate` is called with.
pub record ProxyEvent : Type 0 where
  pub id : Text
  pub status : ProxyStatus
  pub old_status : ProxyStatus
  pub error_message : Text

-- An event of the provider's channel.
pub record ProviderEvent : Type 0 where
  pub status : ProxyStatus
  pub error_message : Text
  pub now : ℕ

pub data Handler : Type 0 where
  redirect_handler http_handler udp_handler tcp_handler : Handler

pub record Proxy : Type 0 where
  pub hostname : Text
  pub config_ports : Map Text PortConfig
  pub ports : Map Text Handler
  -- the ports that were given a listener since their handlers were made
  pub serving : List Text
  pub status : ProxyStatus
  pub status_history : List StatusTransition
  pub last_error : Text
  pub is_paused : Bool
  pub health_running : Bool
  pub canceled : Bool
  pub closed : Bool
  -- the changes of the status that were made, each as the event for `onUpdate`, the latest first
  pub changes : List ProxyEvent
  -- the events whose call of `onUpdate` is still to come: it is made when the lock is released again
  pub pending : List ProxyEvent
  -- those it was called with, the latest first
  pub sent : List ProxyEvent

abbrev pub max_status_history : ℕ
max_status_history = 5

-- `newPortRedirect`, `newPortProxy`, `newPortUDP` or `newPortTCP`
unfoldable pub handler_of : PortConfig → Handler
handler_of c =
    if c.is_redirect
    then redirect_handler
    else if text_eq c.proxy_protocol proto_http || text_eq c.proxy_protocol proto_https
    then http_handler
    else if text_eq c.proxy_protocol proto_udp
    then udp_handler
    else tcp_handler

unfoldable pub init_handlers : Map Text PortConfig → Map Text Handler → Map Text Handler
unfolding handler_of
init_handlers [] ports = ports
init_handlers ((k, c) ∷ m) ports = init_handlers m (insert k (handler_of c) ports)

unfoldable pub init_ports : Proxy → Proxy
unfolding init_handlers
init_ports p = record p { ports = init_handlers p.config_ports p.ports }

unfoldable pub new_proxy : Text → Map Text PortConfig → Proxy
unfolding init_ports
new_proxy hostname config_ports = init_ports (record {
  hostname = hostname;
  config_ports = config_ports;
  ports = [];
  serving = [];
  status = initializing;
  status_history = [];
  last_error = [];
  is_paused = false;
  health_running = false;
  canceled = false;
  closed = false;
  changes = [];
  pending = [];
  sent = [];
})

-- The oldest transitions beyond the limit are cut off.
unfoldable pub push_history : StatusTransition → List StatusTransition → List StatusTransition
push_history t history =
    let longer = history ++ t ∷ [] in
    if ltb max_status_history (length longer)
    then drop (length longer - max_status_history) longer
    else longer

abbrev pub change : ProxyStatus → Proxy → ProxyEvent
change s p = record {
  id = p.hostname;
  status = s;
  old_status = p.status;
  error_message = p.last_error;
}

-- `setStatus` up to the release of the lock.
unfoldable pub set_status : ℕ → ProxyStatus → Proxy → Proxy
set_status now s p =
    if same_status p.status s
    then p
    else if p.is_paused && not (same_status s paused)
    then p
    else record p {
      status = s;
      status_history = push_history (record { status = s; timestamp = now }) p.status_history;
      changes = change s p ∷ p.changes;
      pending = change s p ∷ p.pending;
    }

-- One of the events that wait, and the others.
unfoldable pub take_out : ℕ → List ProxyEvent → Option (ProxyEvent × List ProxyEvent)
take_out i [] = none
take_out zero (u ∷ us) = some (u, us)
take_out (suc i) (u ∷ us) = Option.map (λ (x, rest). (x, u ∷ rest)) (take_out i us)

abbrev pub send_taken : Option (ProxyEvent × List ProxyEvent) → Proxy → Proxy
send_taken none p = p
send_taken (some (u, rest)) p = record p { pending = rest; sent = u ∷ p.sent }

-- The end of `setStatus`: the goroutines that have released the lock call `onUpdate` in any order.
unfoldable pub call_on_update : ℕ → Proxy → Proxy
unfolding take_out
call_on_update i p = send_taken (take_out i p.pending) p

-- One round of the goroutine that `Start` leaves behind.
unfoldable pub handle_event : ProviderEvent → Proxy → Proxy
handle_event e p = set_status e.now e.status (record p { last_error = e.error_message })

unfoldable pub handle_events : List ProviderEvent → Proxy → Proxy
handle_events [] p = p
handle_events (e ∷ es) p = handle_events es (handle_event e p)
