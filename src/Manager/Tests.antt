-- ===== src/Manager/Tests.antt =====
-- Events on two targets that share a host name, and the theorems applied there.
use tsdproxy.Common.{
  ℕ, ◌≡◌, refl, Bool, true, false, List, [], ◌∷◌, Option, some, arith, Text, text_Eq, ok,
}
use tsdproxy.Common.Maps.{Map, lookup, insert, erase}
use tsdproxy.Strings.{codes}
use tsdproxy.Config.{TailscaleServerConfig, TlsProviderConfig, Data, acme}
use tsdproxy.Manager.{
  TargetConfig, Registered, ProxyManager, Answers, start_proxy, new_proxy_manager, new_proxy,
  event_stop, event_start, handle_locked, close_and_remove_proxy, remove_and_teardown, remove_found,
  register_proxy, finish_new, teardown, forget_target,
}
use tsdproxy.Manager.Removal.{Has, IsConsistent}
use tsdproxy.Manager.Invariant.{Step, handles, run, step, run-IsConsistent}
use tsdproxy.Manager.Stops.{event_stop_other}
use tsdproxy.Manager.Watch.{
  Signal, event, stream_closed, stream_error, watch_start, watch_signal, watch_events, reconnect,
  reconnect_backoff, events_of, waits_of, watch_events_lem,
}
use tsdproxy.Health.{int64}
use tsdproxy.Manager.Certificates.{
  TlsProvider, acme_tls, IsBound, resolve_and_set_providers, resolve_dns_provider,
  resolve_tls_provider, resolve_configured, new_acme_provider, resolve_and_set_providers_sound,
}

abbrev target_of : Text → TargetConfig
target_of id = record {
  hostname = codes "web";
  target_id = id;
  target_provider = codes "local";
  proxy_provider = [];
  domain = [];
}

abbrev yes : Answers
yes = record { resolves = true; builds = true; stops_meanwhile = false }

abbrev one : Text
one = codes "one"

abbrev two : Text
two = codes "two"

abbrev demo_steps : List Step
demo_steps =
    handles start_proxy one (some (target_of one)) yes
    ∷ handles start_proxy two (some (target_of two)) yes
    ∷ []

abbrev second : Registered
second = record { id = 1; config = target_of two }

abbrev demo_manager : ProxyManager
demo_manager = record {
  proxies = (codes "web", second) ∷ [];
  target_index = (two, codes "web") ∷ [];
  stopping = false;
  next_id = 2;
  torn_down = 0 ∷ [];
}

-- The second target takes over the host name, and the first one's proxy is torn down.
taken_over : run demo_steps new_proxy_manager ≡ demo_manager
unfolding run step new_proxy_manager handle_locked event_start new_proxy close_and_remove_proxy
    remove_and_teardown remove_found register_proxy finish_new teardown forget_target lookup insert
    erase
taken_over = refl

run-IsConsistent_example : IsConsistent (run demo_steps new_proxy_manager)
run-IsConsistent_example = run-IsConsistent demo_steps

demo-IsConsistent : IsConsistent demo_manager
demo-IsConsistent = rw⁻¹ taken_over (run-IsConsistent demo_steps)

event_stop_other_example : Has (event_stop one demo_manager) (codes "web") second
unfolding lookup
event_stop_other_example =
    event_stop_other demo_manager one (codes "web") second refl (λ e. ground (arith, e))

abbrev first : Registered
first = record { id = 0; config = target_of one }

abbrev first_step : List Step
first_step = handles start_proxy one (some (target_of one)) yes ∷ []

abbrev second_step : List Step
second_step = handles start_proxy two (some (target_of two)) yes ∷ []

abbrev demo_tailscale : TailscaleServerConfig
demo_tailscale = record {
  hostname = [];
  client_id = [];
  reconcile_interval = codes "0";
  client_secret = [];
  client_secret_file = [];
  tags = [];
  prevent_duplicates = false;
  shared = false;
  services = false;
  auto_approve_devices = false;
  auto_remove_conflicts = false;
}

abbrev demo_data : Data
demo_data = record {
  tls_providers = [];
  dns_providers = [];
  docker = [];
  incus = [];
  proxmox = [];
  providers = (codes "Ts", some demo_tailscale) ∷ [];
  default_proxy_provider = codes "TS";
  default_tls_provider = [];
  default_dns_provider = [];
}

abbrev demo_acme : TlsProviderConfig
demo_acme = record { provider = acme; email = codes "me" }

abbrev solves : ℕ → Bool
solves d = true

-- A certificate maker is known by its DNS provider and its address.
abbrev new_acme : TlsProviderConfig → ℕ → Option (ℕ × Text)
new_acme c d = some (d, c.email)

abbrev demo_dns : Map Text ℕ
demo_dns = (codes "cf", 7) ∷ []

abbrev demo_tls : Map Text (Option TlsProviderConfig)
demo_tls = (codes "le", some demo_acme) ∷ []

abbrev demo_maker : TlsProvider (ℕ × Text)
demo_maker = acme_tls (7, codes "me")

-- DNS provider 7 makes the certificates of a proxy that names both of its providers.
demo_resolved :
    resolve_and_set_providers solves new_acme demo_dns [] (codes "cf") demo_tls [] [] (codes "le")
    ≡ ok (7, demo_maker)
unfolding resolve_and_set_providers resolve_dns_provider resolve_tls_provider resolve_configured
    new_acme_provider lookup
demo_resolved = refl

resolve_and_set_providers_sound_example :
    (lookup (codes "cf") demo_dns ≡ some 7)
    × IsBound solves new_acme demo_tls (codes "le") 7 demo_maker
resolve_and_set_providers_sound_example =
    resolve_and_set_providers_sound solves new_acme demo_dns [] (codes "cf") demo_tls [] []
      (codes "le") 7 demo_maker demo_resolved

abbrev demo_signals : List Signal
demo_signals = stream_error ∷ stream_closed ∷ event one ∷ stream_closed ∷ event two ∷ []

-- The waits are 1, 2 and, after an event, again 1 second.
demo_waits :
    (watch_events demo_signals watch_start).waits ≡ 1000000000 ∷ 2000000000 ∷ 1000000000 ∷ []
unfolding watch_events watch_start watch_signal reconnect reconnect_backoff int64
demo_waits = refl

watch_events_lem_example :
    ((watch_events demo_signals watch_start).dispatched ≡ events_of demo_signals)
    × ((watch_events demo_signals watch_start).waits ≡ waits_of demo_signals 0)
watch_events_lem_example = watch_events_lem demo_signals
