-- ===== src/Proxy/Resumption.antt =====
-- What a `Resume` that gets no listener leaves behind.
use tsdproxy.Common.{
  ℕ, ◌+◌, ◌<◌, ◌≡◌, refl, ap, ◌∙◌, Bool, true, false, not, ◌&&◌, List, [], ◌∷◌, some, arith, length,
  if_both, Bool-cases, inl, inr,
}
use tsdproxy.Proxy.Defs.{
  error, paused, ProxyStatus, ProviderEvent, Proxy, same_status, set_status, handle_event,
  handle_events, init_ports,
}
use tsdproxy.Proxy.Lifecycle.{all_listeners_failed, listen_loop, all_failed, resume, resume_end}
use tsdproxy.Proxy.Operations.{listen_loop-serving, listen_loop_none}
use tsdproxy.Proxy.Transitions.{SameStatus}

set_status_blocked :
    (now : ℕ) (s : ProxyStatus) (p : Proxy)
    → p.is_paused ≡ true
    → same_status s paused ≡ false
    → set_status now s p ≡ p
unfolding set_status
set_status_blocked now s p h e = elim (Bool-cases (same_status p.status s)) [
  | inl same ↦ rw same refl
  | inr differs ↦ rw (differs, h, e) refl
]

set_status-config_ports :
    (now : ℕ) (s : ProxyStatus) (p : Proxy) → (set_status now s p).config_ports ≡ p.config_ports
unfolding set_status
set_status-config_ports now s p =
    if_both (λ (q : Proxy). q.config_ports ≡ p.config_ports) (same_status p.status s) (λ _. refl)
      (λ _.
        if_both (λ (q : Proxy). q.config_ports ≡ p.config_ports)
          (p.is_paused && not (same_status s paused)) (λ _. refl) (λ _. refl))

handle_events-config_ports :
    (es : List ProviderEvent) (p : Proxy) → (handle_events es p).config_ports ≡ p.config_ports
unfolding handle_events handle_event
handle_events-config_ports [] p = refl
handle_events-config_ports (e ∷ es) p =
    handle_events-config_ports es (handle_event e p)
    ∙ set_status-config_ports e.now e.status (record p { last_error = e.error_message })

resume_end_failed :
    (now : ℕ) (monitored : Bool) (n : ℕ) (p : Proxy)
    → all_failed n (length p.config_ports) ≡ true
    → resume_end now monitored n p ≡ (record p { is_paused = true }, some all_listeners_failed)
unfolding resume_end
resume_end_failed now monitored n p h =
    rw (h, set_status_blocked now error (record p { is_paused = true }) refl refl) refl

all_failed_lem : (n total : ℕ) → 0 < total → n ≡ 0 + total → all_failed n total ≡ true
all_failed_lem n total h e = ground arith

-- A `Resume` of a paused proxy with a port, which gets no listener, fails and leaves the proxy paused. Its status,
-- history and changes are then those that the events of its provider made while it was not paused, whichever
-- came, and with no event those of before: the error status that `Resume` means to set is never taken, since
-- the pause flag that it has just set again refuses it.
pub resume_all_failed :
    (now : ℕ) (monitored : Bool) (events : List ProviderEvent) (p : Proxy)
    → p.is_paused ≡ true
    → 0 < length p.config_ports
    → let awake = handle_events events (init_ports (record p { is_paused = false })) in
      let (q, e) = resume now monitored (λ k c. false) events p in
      (e ≡ some all_listeners_failed) × SameStatus (record awake { is_paused = true }) q
unfolding resume init_ports
resume_all_failed now monitored events p h some_port =
    let awake = handle_events events (init_ports (record p { is_paused = false })) in
    let (xs, same) = listen_loop-serving (λ k c. false) p.config_ports 0 awake in
    let n = (listen_loop (λ k c. false) p.config_ports 0 awake).1 in
    let ports = handle_events-config_ports events (init_ports (record p { is_paused = false })) in
    let all =
      ap (λ m. all_failed n (length m)) ports
      ∙ all_failed_lem n (length p.config_ports) some_port
          (listen_loop_none p.config_ports 0 awake) in
    let done = resume_end_failed now monitored n (record awake { serving = xs }) all in
    rw (h, same, done)
      (
        refl,
        record { status = refl; history = refl; changes = refl; pending = refl; is_paused = refl },
      )
