-- ===== src/Proxy/Operations.antt =====
-- The operations of a proxy: what each does to its status, and what holds after any of them.
use mathlib.Core.List.{reverse}
use tsdproxy.Common.{
  ℕ, suc, ◌+◌, ◌≤◌, ◌≡◌, refl, ap, ◌∙◌, Bool, true, false, not, List, [], ◌∷◌, Option, arith, ◌==◌,
  if◌then◌else◌, length, Text, if_both, Bool-cases, inl, inr, length-map,
}
use tsdproxy.Common.Maps.{Map}
use tsdproxy.Common.Last.{length-last}
use tsdproxy.Port.Defs.{PortConfig}
use tsdproxy.Proxy.Defs.{
  running, stopping, stopped, error, paused, ProviderEvent, Proxy, same_status, set_status,
  handle_event, new_proxy, init_ports, call_on_update,
}
use tsdproxy.Proxy.Lifecycle.{
  LifecycleError, listen_loop, all_failed, is_served, start_port, start, pause, resume, resume_end,
  close,
}
use tsdproxy.Proxy.Status.{
  statuses, IsTraced, call_on_update-IsTraced, set_status-IsTraced, handle_event-IsTraced,
  handle_events-IsTraced, new_proxy-IsTraced,
}

pub data Operation : Type 0 where
  starts : Bool → Bool → (Text → PortConfig → Bool) → List ProviderEvent → Operation
  pauses : ℕ → Operation
  resumes : ℕ → Bool → (Text → PortConfig → Bool) → List ProviderEvent → Operation
  closes : ℕ → List ProviderEvent → Operation
  reports : ProviderEvent → Operation
  -- a port's server fails, and its goroutine sets the error status
  port_fails : ℕ → Operation
  -- one of the calls of `onUpdate` that wait is made
  sends : ℕ → Operation

pub step : Operation → Proxy → Proxy
step (starts ok monitored listens events) p = (start ok monitored listens events p).0
step (pauses now) p = (pause now p).0
step (resumes now monitored listens events) p = (resume now monitored listens events p).0
step (closes now events) p = close now events p
step (reports e) p = handle_event e p
step (port_fails now) p = set_status now error p
step (sends i) p = call_on_update i p

unfoldable pub run : List Operation → Proxy → Proxy
run [] p = p
run (o ∷ os) p = run os (step o p)

start_port-serving :
    (k : Text) (c : PortConfig) (p : Proxy)
    → (xs : List Text) × (start_port k c p ≡ record p { serving = xs })
unfolding start_port
start_port-serving k c p = elim (Bool-cases (is_served k c p)) [
  | inl e ↦ (k ∷ p.serving, rw e)
  | inr e ↦ (p.serving, rw e)
]

-- The loop over the ports leaves all but `serving` alone.
pub listen_loop-serving :
    (listens : Text → PortConfig → Bool) (m : Map Text PortConfig) (n : ℕ) (p : Proxy)
    → (xs : List Text) × ((listen_loop listens m n p).0 ≡ record p { serving = xs })
unfolding listen_loop
listen_loop-serving listens [] n p = (p.serving, refl)
listen_loop-serving listens ((k, c) ∷ m) n p =
    let q = if listens k c then start_port k c p else p in
    let (xs, here) =
      if_both (λ (q : Proxy). (xs : List Text) × (q ≡ record p { serving = xs })) (listens k c)
        (λ _. start_port-serving k c p) (λ _. (p.serving, refl)) in
    let (ys, rest) = listen_loop-serving listens m (if listens k c then n else suc n) q in
    (ys, rest ∙ ap {A = Proxy} (λ r. record r { serving = ys }) here)

-- With no listener granted all configured ports are counted.
pub listen_loop_none :
    (m : Map Text PortConfig) (n : ℕ) (p : Proxy)
    → (listen_loop (λ k c. false) m n p).1 ≡ n + length m
unfolding listen_loop
listen_loop_none [] n p = omega arith
listen_loop_none ((k, c) ∷ m) n p = omega (arith, listen_loop_none m (suc n) p)

listen_loop-IsTraced :
    (listens : Text → PortConfig → Bool) (m : Map Text PortConfig) (n : ℕ) (p : Proxy)
    → IsTraced p
    → IsTraced (listen_loop listens m n p).0
listen_loop-IsTraced listens m n p v =
    let (xs, e) = listen_loop-serving listens m n p in
    rw e (record { chained = v.chained; history = v.history; kept = v.kept })

start-IsTraced :
    (ok monitored : Bool) (listens : Text → PortConfig → Bool) (events : List ProviderEvent)
    (p : Proxy)
    → IsTraced p
    → IsTraced (start ok monitored listens events p).0
unfolding start
start-IsTraced ok monitored listens events p v =
    if_both {A = Proxy × Option LifecycleError} (λ r. IsTraced r.0) (length p.ports == 0) (λ _. v)
      (λ _.
        if_both {A = Proxy × Option LifecycleError} (λ r. IsTraced r.0) (not ok) (λ _. v)
          (λ _. listen_loop-IsTraced listens p.config_ports 0 _ (
            handle_events-IsTraced events _
              (record { chained = v.chained; history = v.history; kept = v.kept }))))

pause-IsTraced : (now : ℕ) (p : Proxy) → IsTraced p → IsTraced (pause now p).0
unfolding pause
pause-IsTraced now p v =
    if_both {A = Proxy × Option LifecycleError} (λ r. IsTraced r.0) p.is_paused (λ _. v)
      (λ _.
        if_both {A = Proxy × Option LifecycleError} (λ r. IsTraced r.0)
          (not (same_status p.status running)) (λ _. v)
          (λ _.
            set_status-IsTraced now paused _
              (record { chained = v.chained; history = v.history; kept = v.kept })))

resume_end-IsTraced :
    (now : ℕ) (monitored : Bool) (n : ℕ) (p : Proxy)
    → IsTraced p
    → IsTraced (resume_end now monitored n p).0
unfolding resume_end
resume_end-IsTraced now monitored n p v =
    if_both {A = Proxy × Option LifecycleError} (λ r. IsTraced r.0)
      (all_failed n (length p.config_ports))
      (λ _.
        set_status-IsTraced now error _
          (record { chained = v.chained; history = v.history; kept = v.kept }))
      (λ _.
        set_status-IsTraced now running _
          (record { chained = v.chained; history = v.history; kept = v.kept }))

resume-IsTraced :
    (now : ℕ) (monitored : Bool) (listens : Text → PortConfig → Bool) (events : List ProviderEvent)
    (p : Proxy)
    → IsTraced p
    → IsTraced (resume now monitored listens events p).0
unfolding resume init_ports
resume-IsTraced now monitored listens events p v =
    if_both {A = Proxy × Option LifecycleError} (λ r. IsTraced r.0) (not p.is_paused) (λ _. v)
      (λ _. resume_end-IsTraced now monitored _ _ (
        listen_loop-IsTraced listens p.config_ports 0 _ (
          handle_events-IsTraced events _
            (record { chained = v.chained; history = v.history; kept = v.kept }))))

close-IsTraced :
    (now : ℕ) (events : List ProviderEvent) (p : Proxy) → IsTraced p → IsTraced (close now events p)
unfolding close
close-IsTraced now events p v =
    if_both IsTraced p.closed (λ _. v)
      (λ _. set_status-IsTraced now stopped _ (
        handle_events-IsTraced events _ (
          let w =
            set_status-IsTraced now stopping (record p { closed = true; is_paused = false })
              (record { chained = v.chained; history = v.history; kept = v.kept }) in
          record { chained = w.chained; history = w.history; kept = w.kept })))

step-IsTraced : (o : Operation) (p : Proxy) → IsTraced p → IsTraced (step o p)
unfolding step
step-IsTraced (starts ok monitored listens events) p v =
    start-IsTraced ok monitored listens events p v
step-IsTraced (pauses now) p v = pause-IsTraced now p v
step-IsTraced (resumes now monitored listens events) p v =
    resume-IsTraced now monitored listens events p v
step-IsTraced (closes now events) p v = close-IsTraced now events p v
step-IsTraced (reports e) p v = handle_event-IsTraced e p v
step-IsTraced (port_fails now) p v = set_status-IsTraced now error p v
step-IsTraced (sends i) p v = call_on_update-IsTraced i p v

run-IsTraced : (os : List Operation) (p : Proxy) → IsTraced p → IsTraced (run os p)
unfolding run
run-IsTraced [] p v = v
run-IsTraced (o ∷ os) p v = run-IsTraced os (step o p) (step-IsTraced o p v)

-- After any operations, provider events and port failures, and with the calls of `onUpdate` made later
-- and in any order, the changes of the status are an unbroken chain from the initial one to the present
-- one, the status history shows exactly the latest five of them, in order, and `onUpdate` was called once for
-- each change whose call does not wait, and for nothing else.
pub run-new_proxy-IsTraced :
    (hostname : Text) (config_ports : Map Text PortConfig) (os : List Operation)
    → let p = run os (new_proxy hostname config_ports) in IsTraced p × (length p.status_history ≤ 5)
run-new_proxy-IsTraced hostname config_ports os =
    let p = run os (new_proxy hostname config_ports) in
    let v =
      run-IsTraced os (new_proxy hostname config_ports)
        (new_proxy-IsTraced hostname config_ports) in
    (
      v,
      omega (
        arith,
        length-map p.status_history (λ t. t.status),
        ap length v.history,
        length-last 5 (reverse (statuses p.changes)),
      ),
    )
