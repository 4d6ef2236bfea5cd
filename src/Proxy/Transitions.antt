-- ===== src/Proxy/Transitions.antt =====
-- What pausing, resuming and closing mean for the status.
use tsdproxy.Common.{
  ℕ, ◌≡◌, ◌≢◌, refl, ◌∙◌, ◌⊎◌, inl, inr, true, false, not, ◌&&◌, List, [], ◌∷◌, none, arith,
  if_both, Bool-cases,
}
use tsdproxy.Proxy.Defs.{
  ProxyStatus, running, stopping, stopped, paused, ProviderEvent, Proxy, same_status, set_status,
  handle_event, handle_events,
}
use tsdproxy.Proxy.Lifecycle.{pause, close, stop_health_checker}

-- The parts of a proxy that a status change shows in.
pub record SameStatus (p q : Proxy) : Type 0 where
  pub status : q.status ≡ p.status
  pub history : q.status_history ≡ p.status_history
  pub changes : q.changes ≡ p.changes
  pub pending : q.pending ≡ p.pending
  pub is_paused : q.is_paused ≡ p.is_paused

set_status_paused :
    (now : ℕ) (s : ProxyStatus) (p : Proxy)
    → p.is_paused ≡ true
    → p.status ≡ paused
    → set_status now s p ≡ p
unfolding set_status
set_status_paused now s p h e = ground arith

-- A paused proxy ignores whatever statuses its provider reports: its status and history stay, and
-- nobody is told of a change.
pub handle_events_paused :
    (es : List ProviderEvent) (p : Proxy)
    → p.is_paused ≡ true
    → p.status ≡ paused
    → SameStatus p (handle_events es p)
unfolding handle_events handle_event
handle_events_paused [] p h e = record {
  status = refl;
  history = refl;
  changes = refl;
  pending = refl;
  is_paused = refl;
}
handle_events_paused (v ∷ es) p h e =
    let q : Proxy = record p { last_error = v.error_message } in
    let same = set_status_paused v.now v.status q h e in
    rw same (
      let w = handle_events_paused es q h e in
      record {
        status = w.status;
        history = w.history;
        changes = w.changes;
        pending = w.pending;
        is_paused = w.is_paused;
      })

set_status_change :
    (now : ℕ) (s : ProxyStatus) (p : Proxy)
    → same_status p.status s ≡ false
    → (p.is_paused && not (same_status s paused)) ≡ false
    → ((set_status now s p).status ≡ s) × ((set_status now s p).is_paused ≡ p.is_paused)
unfolding set_status
set_status_change now s p h e = rw (h, e) (refl, refl)

-- What `Pause` promises where it succeeds.
pub record IsAsleep (p : Proxy) : Type 0 where
  pub status : p.status ≡ paused
  pub is_paused : p.is_paused ≡ true
  pub ports : p.ports ≡ []
  pub serving : p.serving ≡ []
  pub health_running : p.health_running ≡ false

running_of : (s : ProxyStatus) → not (same_status s running) ≡ false → s ≡ running
running_of s h = ground arith

not_running_of : (s : ProxyStatus) → not (same_status s running) ≡ true → s ≢ running
not_running_of s h e = ground arith

-- `Pause` succeeds exactly if the proxy is running and not paused. Then it is paused, serves no port and
-- is not monitored; else nothing changes.
pub pause_lem :
    (now : ℕ) (p : Proxy)
    → ((p.is_paused ≡ false)
        × (p.status ≡ running)
        × ((pause now p).1 ≡ none)
        × IsAsleep (pause now p).0)
      ⊎ (((p.is_paused ≡ true) ⊎ (p.status ≢ running))
          × ((pause now p).1 ≢ none)
          × ((pause now p).0 ≡ p))
unfolding pause set_status stop_health_checker
pause_lem now p = elim (Bool-cases p.is_paused) [
  | inl h ↦ inr (inl h, rw h (λ e. ground arith), rw h refl)
  | inr h ↦ elim (Bool-cases (not (same_status p.status running))) [
    | inl e ↦ inr (inr (not_running_of p.status e), rw (h, e) (λ w. ground arith), rw (h, e) refl)
    | inr e ↦
        let r = running_of p.status e in
        inl (
          h,
          r,
          rw (h, r) refl,
          rw (h, r)
              (record {
                status = refl;
                is_paused = refl;
                ports = refl;
                serving = refl;
                health_running = refl;
              }),
        )
  ]
]

-- The fields that a status change leaves alone.
record SameRest (p q : Proxy) : Type 0 where
  is_paused : q.is_paused ≡ p.is_paused
  canceled : q.canceled ≡ p.canceled
  serving : q.serving ≡ p.serving
  health_running : q.health_running ≡ p.health_running
  closed : q.closed ≡ p.closed

set_status-SameRest : (now : ℕ) (s : ProxyStatus) (p : Proxy) → SameRest p (set_status now s p)
unfolding set_status
set_status-SameRest now s p =
    let same : SameRest p p = record {
      is_paused = refl;
      canceled = refl;
      serving = refl;
      health_running = refl;
      closed = refl;
    } in
    if_both (SameRest p) (same_status p.status s) (λ _. same)
      (λ _.
        if_both (SameRest p) (p.is_paused && not (same_status s paused)) (λ _. same)
          (λ _. record {
            is_paused = refl;
            canceled = refl;
            serving = refl;
            health_running = refl;
            closed = refl;
          }))

handle_events-SameRest : (es : List ProviderEvent) (p : Proxy) → SameRest p (handle_events es p)
unfolding handle_events handle_event
handle_events-SameRest [] p = record {
  is_paused = refl;
  canceled = refl;
  serving = refl;
  health_running = refl;
  closed = refl;
}
handle_events-SameRest (v ∷ es) p =
    let w = set_status-SameRest v.now v.status (record p { last_error = v.error_message }) in
    let r = handle_events-SameRest es (handle_event v p) in
    record {
      is_paused = r.is_paused ∙ w.is_paused;
      canceled = r.canceled ∙ w.canceled;
      serving = r.serving ∙ w.serving;
      health_running = r.health_running ∙ w.health_running;
      closed = r.closed ∙ w.closed;
    }

same_status_iff : (s t : ProxyStatus) → same_status s t ≡ true → s ≡ t
same_status_iff s t h = ground arith

-- Without the pause flag any status is taken.
set_status_unpaused :
    (now : ℕ) (s : ProxyStatus) (p : Proxy) → p.is_paused ≡ false → (set_status now s p).status ≡ s
unfolding set_status
set_status_unpaused now s p h = elim (Bool-cases (same_status p.status s)) [
  | inl e ↦ rw e (same_status_iff p.status s e)
  | inr e ↦ rw (e, h) refl
]

-- Closing a proxy that was not closed, whatever its status and whether it is paused, ends in the stopped
-- status with the context canceled, no port served and no health check; closing it again does nothing.
pub close_lem :
    (now later : ℕ) (events more : List ProviderEvent) (p : Proxy)
    → p.closed ≡ false
    → let q = close now events p in
      (q.status ≡ stopped)
      × (q.is_paused ≡ false)
      × (q.canceled ≡ true)
      × (q.serving ≡ [])
      × (q.health_running ≡ false)
      × (close later more q ≡ q)
unfolding close stop_health_checker
close_lem now later events more p h =
    let closing : Proxy = record p { closed = true; is_paused = false } in
    let first = set_status-SameRest now stopping closing in
    let stopping_now : Proxy = record (set_status now stopping closing) {
      health_running = false;
      canceled = true;
      serving = [];
    } in
    let mid = handle_events-SameRest events stopping_now in
    let end = set_status-SameRest now stopped (handle_events events stopping_now) in
    let flag = mid.is_paused ∙ first.is_paused in
    rw h (
      set_status_unpaused now stopped (handle_events events stopping_now) flag,
      end.is_paused ∙ flag,
      end.canceled ∙ mid.canceled,
      end.serving ∙ mid.serving,
      end.health_running ∙ mid.health_running,
      rw (end.closed ∙ mid.closed ∙ first.closed) refl,
    )
