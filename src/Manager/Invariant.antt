-- ===== src/Manager/Invariant.antt =====
-- The manager's maps stay consistent under all its operations.
use tsdproxy.Common.{
  ℕ, suc, ◌<◌, ◌≡◌, ◌≢◌, refl, sym, Bool, true, false, not, List, [], ◌∷◌, Option, none, some,
  arith, Text, text_eq, text_Eq, text_eq_iff, All, All-map, if_both, Result, ok, err,
}
use tsdproxy.Common.Maps.{lookup, lookup-erase}
use tsdproxy.Manager.{
  TargetConfig, Registered, ProxyManager, ManagerError, Answers, Action, start_proxy, stop_proxy,
  restart_proxy, unknown_action, new_proxy_manager, or_empty, teardown, remove_found,
  remove_and_teardown, close_and_remove_proxy, close_proxy_if_still_current, remove_proxy,
  register_proxy, stop_if, finish_new, new_proxy, event_start, event_stop, handle_locked,
  start_ended, restart_proxy_locked, start_made, remove_all, stop_all_proxies, hostnames,
  same_proxy,
}
use tsdproxy.Manager.Removal.{
  Has, IsConsistent, remove_and_teardown-IsConsistent, register_proxy-IsConsistent,
}

-- What goroutines do between two others' holding of the locks.
pub data Step : Type 0 where
  handles : Action → Text → Option TargetConfig → Answers → Step
  -- the end of a `Start`, whose beginning changes no map
  start_ends : Registered → Bool → Step
  -- with the start and its end; where others come in between, its end is a step of its own
  restarts : Answers → Bool → TargetConfig → Step
  removes : Text → Step
  stops_all : Step

unfoldable pub step : Step → ProxyManager → ProxyManager
step (handles action id target answers) m = (handle_locked action id target answers m).0
step (start_ends p succeeds) m = start_ended p succeeds m
step (restarts answers succeeds config) m = (restart_proxy_locked answers succeeds config m).0
step (removes h) m = remove_proxy h m
step stops_all m = stop_all_proxies m

unfoldable pub run : List Step → ProxyManager → ProxyManager
run [] m = m
run (s ∷ ss) m = run ss (step s m)

remove_found-frees :
    (h : Text) (o : Option Registered) (m : ProxyManager)
    → lookup h m.proxies ≡ o
    → lookup h (remove_found h (λ p. true) o m).0.proxies ≡ none
unfolding remove_found teardown
remove_found-frees h none m e = e
remove_found-frees h (some p) m e = ground (arith, lookup-erase h h m.proxies, text_eq_iff h h)

-- Removal frees the host name.
pub close_and_remove_proxy_lem :
    (h : Text) (m : ProxyManager) → lookup h (close_and_remove_proxy h m).proxies ≡ none
unfolding close_and_remove_proxy remove_and_teardown
close_and_remove_proxy_lem h m = remove_found-frees h (lookup h m.proxies) m refl

-- The state in which the proxy `p` was just allocated.
record IsNew (p : Registered) (m : ProxyManager) : Type 0 where
  free : lookup p.config.hostname m.proxies ≡ none
  small : p.id < m.next_id
  other : (k : Text) (q : Registered) → Has m k q → q.id ≢ p.id
  gone : All (λ i. i ≢ p.id) m.torn_down

refused :
    (p : Registered) (config : TargetConfig) (m : ProxyManager)
    → (register_proxy p config m).1 ≡ false
    → (register_proxy p config m).0 ≡ m
unfolding register_proxy
refused p config m e = ground (arith, e)

finish_new-IsConsistent :
    (p : Registered) (m : ProxyManager)
    → IsNew p m
    → IsConsistent m
    → IsConsistent (finish_new p p.config m).0
unfolding finish_new
finish_new-IsConsistent p m new v =
    if_both {A = ProxyManager × Result ManagerError Registered} (λ r. IsConsistent r.0)
      (register_proxy p p.config m).1
      (λ e. register_proxy-IsConsistent p m new.free new.small new.other new.gone v)
      (λ e. rw (refused p p.config m e) (record {
        named = v.named;
        indexed = v.indexed;
        fresh = v.fresh;
        past = (new.small, v.past);
        alive = λ k q has. ((λ same. new.other k q has (sym same)), v.alive k q has);
        unique = v.unique;
      }))

lt_ne : (a b : ℕ) → a < b → a ≢ b
lt_ne a b h e = omega (arith, h, e)

allocate-IsConsistent :
    (late : Bool) (config : TargetConfig) (m : ProxyManager)
    → lookup config.hostname m.proxies ≡ none
    → IsConsistent m
    → IsConsistent
        (finish_new
          (record { id = m.next_id; config = config })
          config
          (stop_if late (record m { next_id = suc m.next_id }))).0
allocate-IsConsistent late config m free v =
    let p : Registered = record { id = m.next_id; config = config } in
    let w : (b : Bool) → IsConsistent (record m { next_id = suc m.next_id; stopping = b }) = λ b.
      record {
        named = v.named;
        indexed = v.indexed;
        fresh = λ k q e. omega (arith, v.fresh k q e);
        past = All-map (λ i lt. omega (arith, lt)) m.torn_down v.past;
        alive = v.alive;
        unique = v.unique;
      } in
    let new : (b : Bool) → IsNew p (record m { next_id = suc m.next_id; stopping = b }) = λ b.
      record {
        free = free;
        small = omega arith;
        other = λ k q e. lt_ne q.id m.next_id (v.fresh k q e);
        gone = All-map (λ i. lt_ne i m.next_id) m.torn_down v.past;
      } in
    if_both (λ n. IsConsistent (finish_new p config n).0) late
      (λ _. finish_new-IsConsistent p _ (new true) (w true))
      (λ _. finish_new-IsConsistent p _ (new m.stopping) (w m.stopping))

new_proxy-IsConsistent :
    (answers : Answers) (config : TargetConfig) (m : ProxyManager)
    → IsConsistent m
    → IsConsistent (new_proxy answers config m).0
unfolding new_proxy close_and_remove_proxy
new_proxy-IsConsistent answers config m v =
    let Good = λ (r : ProxyManager × Result ManagerError Registered). IsConsistent r.0 in
    let w = remove_and_teardown-IsConsistent config.hostname (λ p. true) m v in
    let freed = close_and_remove_proxy config.hostname m in
    if_both Good m.stopping (λ _. v)
      (λ _.
        if_both Good (not answers.resolves) (λ _. v)
          (λ _.
            if_both Good (not answers.builds) (λ _. w)
              (λ _.
                allocate-IsConsistent answers.stops_meanwhile config freed
                  (close_and_remove_proxy_lem config.hostname m) w)))

event_stop-IsConsistent :
    (id : Text) (m : ProxyManager) → IsConsistent m → IsConsistent (event_stop id m)
unfolding event_stop
event_stop-IsConsistent id m v =
    let h = or_empty (lookup id m.target_index) in
    if_both IsConsistent (text_eq h []) (λ _. v)
      (λ _. remove_and_teardown-IsConsistent h (λ p. text_eq p.config.target_id id) m v)

event_start-IsConsistent :
    (target : Option TargetConfig) (answers : Answers) (m : ProxyManager)
    → IsConsistent m
    → IsConsistent (event_start target answers m).0
unfolding event_start
event_start-IsConsistent none answers m v = v
event_start-IsConsistent (some config) answers m v = new_proxy-IsConsistent answers config m v

handle_locked-IsConsistent :
    (action : Action) (id : Text) (target : Option TargetConfig) (answers : Answers)
    (m : ProxyManager)
    → IsConsistent m
    → IsConsistent (handle_locked action id target answers m).0
unfolding handle_locked
handle_locked-IsConsistent start_proxy id target answers m v =
    event_start-IsConsistent target answers m v
handle_locked-IsConsistent stop_proxy id target answers m v = event_stop-IsConsistent id m v
handle_locked-IsConsistent restart_proxy id target answers m v =
    event_start-IsConsistent target answers (event_stop id m) (event_stop-IsConsistent id m v)
handle_locked-IsConsistent unknown_action id target answers m v = v

close_current-IsConsistent :
    (p : Registered) (m : ProxyManager)
    → IsConsistent m
    → IsConsistent (close_proxy_if_still_current p m)
unfolding close_proxy_if_still_current
close_current-IsConsistent p m v =
    remove_and_teardown-IsConsistent p.config.hostname (λ q. same_proxy q p) m v

start_ended-IsConsistent :
    (p : Registered) (succeeds : Bool) (m : ProxyManager)
    → IsConsistent m
    → IsConsistent (start_ended p succeeds m)
unfolding start_ended
start_ended-IsConsistent p true m v = v
start_ended-IsConsistent p false m v = close_current-IsConsistent p m v

start_made-IsConsistent :
    (succeeds : Bool) (m : ProxyManager) (r : Result ManagerError Registered)
    → IsConsistent m
    → IsConsistent (start_made succeeds m r).0
unfolding start_made
start_made-IsConsistent succeeds m (err e) v = v
start_made-IsConsistent succeeds m (ok p) v =
    if_both {A = ProxyManager × Option ManagerError} (λ r. IsConsistent r.0) succeeds (λ _. v)
      (λ _. close_current-IsConsistent p m v)

restart-IsConsistent :
    (answers : Answers) (succeeds : Bool) (config : TargetConfig) (m : ProxyManager)
    → IsConsistent m
    → IsConsistent (restart_proxy_locked answers succeeds config m).0
unfolding restart_proxy_locked
restart-IsConsistent answers succeeds config m v =
    start_made-IsConsistent succeeds _ (new_proxy answers config m).1
      (new_proxy-IsConsistent answers config m v)

remove_all-IsConsistent :
    (hs : List Text) (m : ProxyManager) → IsConsistent m → IsConsistent (remove_all hs m)
unfolding remove_all remove_proxy
remove_all-IsConsistent [] m v = v
remove_all-IsConsistent (h ∷ hs) m v =
    remove_all-IsConsistent hs _ (remove_and_teardown-IsConsistent h (λ p. true) m v)

step-IsConsistent : (s : Step) (m : ProxyManager) → IsConsistent m → IsConsistent (step s m)
unfolding step remove_proxy stop_all_proxies
step-IsConsistent (handles action id target answers) m v =
    handle_locked-IsConsistent action id target answers m v
step-IsConsistent (start_ends p succeeds) m v = start_ended-IsConsistent p succeeds m v
step-IsConsistent (restarts answers succeeds config) m v =
    restart-IsConsistent answers succeeds config m v
step-IsConsistent (removes h) m v = remove_and_teardown-IsConsistent h (λ p. true) m v
step-IsConsistent stops_all m v = remove_all-IsConsistent (hostnames m.proxies) _ (record {
  named = v.named;
  indexed = v.indexed;
  fresh = v.fresh;
  past = v.past;
  alive = v.alive;
  unique = v.unique;
})

steps-IsConsistent : (ss : List Step) (m : ProxyManager) → IsConsistent m → IsConsistent (run ss m)
unfolding run
steps-IsConsistent [] m v = v
steps-IsConsistent (s ∷ ss) m v = steps-IsConsistent ss (step s m) (step-IsConsistent s m v)

-- After any events, restarts, removals and shutdowns, in any order and with any answers of the
-- providers, every proxy stands under its host name, the index leads each target it has to a proxy of
-- that target, no registered proxy was torn down, and none stands under two names.
pub run-IsConsistent : (ss : List Step) → IsConsistent (run ss new_proxy_manager)
unfolding new_proxy_manager lookup
run-IsConsistent ss = steps-IsConsistent ss new_proxy_manager (record {
  named = λ h p e. cc;
  indexed = λ t h e. cc;
  fresh = λ h p e. cc;
  past = tt;
  alive = λ h p e. cc;
  unique = λ h k p q e. cc;
})
