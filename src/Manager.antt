-- ===== src/Manager.antt =====
-- The proxy manager: the maps of internal/proxymanager/proxymanager.go and what the events of
-- internal/proxymanager/events.go do to them. A proxy is known by its pointer: `id` numbers the
-- allocations. Its own state is in Proxy, and its domain set-up is left out.
-- What runs under the lock of a target or a host name is one step; the start of a proxy, which runs
-- outside, is a step of its own. The answers of the target and proxy providers are arguments.
pub mod Removal
pub mod Invariant
pub mod Stops
pub mod Registry
pub mod Certificates
pub mod Watch
mod Tests
use tsdproxy.Common.{
  ℕ, suc, Bool, true, false, not, ◌&&◌, List, [], ◌∷◌, Option, none, some, ◌==◌, if◌then◌else◌,
  Text, text_eq, text_Eq, Result, ok, err,
}
use tsdproxy.Common.Maps.{Map, lookup, insert, erase}

-- What the manager reads of a proxy's configuration.
pub record TargetConfig : Type 0 where
  pub hostname : Text
  pub target_id : Text
  pub target_provider : Text
  pub proxy_provider : Text
  pub domain : Text

pub record Registered : Type 0 where
  pub id : ℕ
  pub config : TargetConfig

pub record ProxyManager : Type 0 where
  pub proxies : Map Text Registered
  pub target_index : Map Text Text
  pub stopping : Bool
  -- the next pointer
  pub next_id : ℕ
  -- the proxies that were torn down, or closed because they could not be registered
  pub torn_down : List ℕ

pub data ManagerError : Type 0 where
  shutting_down provider_not_resolved build_failed add_target_failed : ManagerError
  proxy_not_found proxy_replaced start_failed : ManagerError

unfoldable pub new_proxy_manager : ProxyManager
new_proxy_manager = record {
  proxies = [];
  target_index = [];
  stopping = false;
  next_id = 0;
  torn_down = [];
}

-- A read of a Go map of strings: the empty text where the key is missing.
abbrev pub or_empty : Option Text → Text
or_empty none = []
or_empty (some t) = t

unfoldable pub forget_target : Text → Text → Map Text Text → Map Text Text
forget_target target_id hostname m =
    if text_eq (or_empty (lookup target_id m)) hostname then erase target_id m else m

unfoldable pub teardown : Text → Registered → ProxyManager → ProxyManager
unfolding forget_target
teardown hostname p m = record m {
  proxies = erase hostname m.proxies;
  target_index = forget_target p.config.target_id hostname m.target_index;
  torn_down = p.id ∷ m.torn_down;
}

-- `removeAndTeardown`; the identity test of `nil` is always true.
unfoldable pub remove_found :
    Text → (Registered → Bool) → Option Registered → ProxyManager → ProxyManager × Option Registered
remove_found hostname identity none m = (m, none)
remove_found hostname identity (some p) m =
    if identity p then (teardown hostname p m, some p) else (m, none)

unfoldable pub remove_and_teardown :
    Text → (Registered → Bool) → ProxyManager → ProxyManager × Option Registered
unfolding remove_found
remove_and_teardown hostname identity m =
    remove_found hostname identity (lookup hostname m.proxies) m

unfoldable pub close_and_remove_proxy : Text → ProxyManager → ProxyManager
close_and_remove_proxy hostname m = (remove_and_teardown hostname (λ p. true) m).0

-- `==` on pointers
abbrev pub same_proxy : Registered → Registered → Bool
same_proxy p q = p.id == q.id

unfoldable pub close_proxy_if_still_current : Registered → ProxyManager → ProxyManager
close_proxy_if_still_current target m =
    (remove_and_teardown target.config.hostname (λ p. same_proxy p target) m).0

unfoldable pub remove_proxy : Text → ProxyManager → ProxyManager
remove_proxy hostname m = (remove_and_teardown hostname (λ p. true) m).0

unfoldable pub register_proxy : Registered → TargetConfig → ProxyManager → ProxyManager × Bool
register_proxy p config m = if m.stopping then (m, false) else (
  record m {
    proxies = insert config.hostname p m.proxies;
    target_index = insert config.target_id config.hostname m.target_index;
  },
  true,
)

-- What the surroundings answer while a proxy is made: whether its provider resolves, whether the proxy
-- can be built, and whether the shutdown begins before it is registered.
pub record Answers : Type 0 where
  pub resolves : Bool
  pub builds : Bool
  pub stops_meanwhile : Bool

abbrev pub stop_if : Bool → ProxyManager → ProxyManager
stop_if b m = if b then record m { stopping = true } else m

-- The end of `newProxy`: a proxy that cannot be registered is closed again.
unfoldable pub finish_new :
    Registered → TargetConfig → ProxyManager → ProxyManager × Result ManagerError Registered
finish_new p config m =
    let (after, registered) = register_proxy p config m in
    if registered
    then (after, ok p)
    else (record after { torn_down = p.id ∷ after.torn_down }, err shutting_down)

unfoldable pub new_proxy :
    Answers → TargetConfig → ProxyManager → ProxyManager × Result ManagerError Registered
unfolding finish_new
new_proxy answers config m =
    if m.stopping
    then (m, err shutting_down)
    else if not answers.resolves
    then (m, err provider_not_resolved)
    else let freed = close_and_remove_proxy config.hostname m in
      if not answers.builds
      then (freed, err build_failed)
      else finish_new (record { id = freed.next_id; config = config }) config
          (stop_if answers.stops_meanwhile (record freed { next_id = suc freed.next_id }))

-- `AddTarget`'s answer, and those behind it.
unfoldable pub event_start :
    Option TargetConfig → Answers → ProxyManager → ProxyManager × Result ManagerError Registered
event_start none answers m = (m, err add_target_failed)
event_start (some config) answers m = new_proxy answers config m

-- `eventStop`; the provider's own clean-up cannot stop it.
unfoldable pub event_stop : Text → ProxyManager → ProxyManager
event_stop target_id m =
    let hostname = or_empty (lookup target_id m.target_index) in
    if text_eq hostname []
    then m
    else (remove_and_teardown hostname (λ p. text_eq p.config.target_id target_id) m).0

pub data Action : Type 0 where
  start_proxy stop_proxy restart_proxy unknown_action : Action

-- `HandleProxyEvent` up to the release of the target's lock.
unfoldable pub handle_locked :
    Action
    → Text
    → Option TargetConfig
    → Answers
    → ProxyManager
    → ProxyManager × Option (Result ManagerError Registered)
handle_locked start_proxy id target answers m =
    let (after, r) = event_start target answers m in (after, some r)
handle_locked stop_proxy id target answers m = (event_stop id m, none)
handle_locked restart_proxy id target answers m =
    let (after, r) = event_start target answers (event_stop id m) in (after, some r)
handle_locked unknown_action id target answers m = (m, none)

abbrev pub is_current : Option Registered → Registered → Bool
is_current none p = false
is_current (some q) p = same_proxy q p

-- The rest of it, for the proxy to start. It has no lock: first the proxy is looked up again.
unfoldable pub start_check : Registered → ProxyManager → Bool
start_check p m = is_current (lookup p.config.hostname m.proxies) p

-- What `Start` leads to when it ends, in the maps as they are by then; `succeeds` is its outcome. The error
-- that a failed start broadcasts and leaves in the proxy is left out.
unfoldable pub start_ended : Registered → Bool → ProxyManager → ProxyManager
start_ended p true m = m
start_ended p false m = close_proxy_if_still_current p m

-- The check, the start and its end, with what other goroutines do to the maps while `Start` runs.
unfoldable pub start_unlocked :
    Registered → Bool → (ProxyManager → ProxyManager) → ProxyManager → ProxyManager
unfolding start_check start_ended
start_unlocked p succeeds meanwhile m =
    if not (start_check p m) then m else start_ended p succeeds (meanwhile m)

-- The start of the proxy that `restartProxyLocked` made.
unfoldable pub start_made :
    Bool → ProxyManager → Result ManagerError Registered → ProxyManager × Option ManagerError
start_made starts m (err e) = (m, some e)
start_made starts m (ok p) =
    if starts then (m, none) else (close_proxy_if_still_current p m, some start_failed)

unfoldable pub restart_proxy_locked :
    Answers → Bool → TargetConfig → ProxyManager → ProxyManager × Option ManagerError
unfolding start_made
restart_proxy_locked answers starts config m =
    let (after, r) = new_proxy answers config m in start_made starts after r

-- `withCurrentProxy`: `before` is the proxy read ahead of the lock, `m` the state under it.
unfoldable pub with_current_proxy {ℓ} :
    {A : Type ℓ}
    → Text
    → Option Registered
    → (Registered → ProxyManager → ProxyManager × A)
    → ProxyManager
    → ProxyManager × Result ManagerError A
with_current_proxy name none action m = (m, err proxy_not_found)
with_current_proxy name (some p) action m =
    if is_current (lookup name m.proxies) p
    then (let (after, a) = action p m in (after, ok a))
    else (m, err proxy_replaced)

-- The loop of `StopAllProxies`, in some order of its goroutines. The handlers of earlier events have
-- ended before it.
unfoldable pub remove_all : List Text → ProxyManager → ProxyManager
remove_all [] m = m
remove_all (h ∷ hs) m = remove_all hs (remove_proxy h m)

abbrev pub hostnames : Map Text Registered → List Text
hostnames [] = []
hostnames ((h, p) ∷ m) = h ∷ hostnames m

unfoldable pub stop_all_proxies : ProxyManager → ProxyManager
stop_all_proxies m = remove_all (hostnames m.proxies) (record m { stopping = true })
