-- ===== src/Proxy/Tests.antt =====
-- A proxy taken through its life, and the theorems applied there.
use tsdproxy.Common.{◌≤◌, ◌≡◌, refl, true, false, List, [], ◌∷◌, some, arith, length, Text, text_Eq}
use tsdproxy.Common.Maps.{Map}
use tsdproxy.Strings.{codes}
use tsdproxy.Port.Defs.{PortConfig, default_port_config}
use tsdproxy.Proxy.Defs.{
  ProxyStatus, running, starting, stopped, paused, error, ProviderEvent, Proxy, new_proxy,
  handle_events, init_ports,
}
use tsdproxy.Proxy.Lifecycle.{resume, close, all_listeners_failed}
use tsdproxy.Proxy.Status.{IsTraced}
use tsdproxy.Proxy.Operations.{
  Operation, starts, pauses, resumes, closes, reports, sends, run, run-new_proxy-IsTraced,
}
use tsdproxy.Proxy.Transitions.{SameStatus, close_lem}
use tsdproxy.Proxy.Resumption.{resume_all_failed}

abbrev demo_ports : Map Text PortConfig
demo_ports = (codes "443/https", default_port_config (codes "443/https")) ∷ []

abbrev event : ProxyStatus → ProviderEvent
event s = record { status = s; error_message = []; now = 1 }

abbrev demo_operations : List Operation
demo_operations =
    starts true true (λ k c. true) (event starting ∷ [])
    ∷ reports (event running)
    ∷ pauses 2
    ∷ sends 1
    ∷ sends 0
    ∷ reports (event error)
    ∷ resumes 3 true (λ k c. false) []
    ∷ resumes 4 true (λ k c. true) []
    ∷ closes 5 []
    ∷ []

run-new_proxy-IsTraced_example :
    let p = run demo_operations (new_proxy (codes "web") demo_ports) in
    IsTraced p × (length p.status_history ≤ 5)
run-new_proxy-IsTraced_example = run-new_proxy-IsTraced (codes "web") demo_ports demo_operations

abbrev demo_running : Proxy
demo_running = record {
  hostname = codes "web";
  config_ports = demo_ports;
  ports = [];
  serving = [];
  status = running;
  status_history = [];
  last_error = [];
  is_paused = false;
  health_running = true;
  canceled = false;
  closed = false;
  changes = [];
  pending = [];
  sent = [];
}

abbrev demo_paused : Proxy
demo_paused = record demo_running { status = paused; is_paused = true; health_running = false }

-- The provider reports that it runs while the listeners are asked for.
resume_all_failed_example :
    let events = event running ∷ [] in
    let awake = handle_events events (init_ports (record demo_paused { is_paused = false })) in
    let (q, e) = resume 3 true (λ k c. false) events demo_paused in
    (e ≡ some all_listeners_failed) × SameStatus (record awake { is_paused = true }) q
resume_all_failed_example =
    resume_all_failed 3 true (event running ∷ []) demo_paused refl (omega arith)

close_lem_example :
    let q = close 5 (event error ∷ []) demo_paused in
    (q.status ≡ stopped)
    × (q.is_paused ≡ false)
    × (q.canceled ≡ true)
    × (q.serving ≡ [])
    × (q.health_running ≡ false)
    × (close 6 [] q ≡ q)
close_lem_example = close_lem 5 6 (event error ∷ []) [] demo_paused refl
