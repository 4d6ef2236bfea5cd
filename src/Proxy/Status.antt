-- ===== src/Proxy/Status.antt =====
-- What is true of a proxy's status at any time.
use mathlib.Core.List.{reverse, reverse-cons, map-append, Perm, perm_middle}
use mathlib.Core.List.Perm
use mathlib.Core.Option
use tsdproxy.Common.{
  Option, none, some, zero, suc, ℕ, ◌≡◌, ◌≢◌, refl, true, not, ◌&&◌, List, [], ◌∷◌, ◌++◌, map,
  arith, ltb, length, Text, if_both, Bool-cases, inl, inr,
}
use tsdproxy.Common.Maps.{Map}
use tsdproxy.Common.Last.{last, last-of_few, map-last, last-last_append}
use tsdproxy.Port.Defs.{PortConfig}
use tsdproxy.Proxy.Defs.{
  ProxyStatus, initializing, paused, StatusTransition, ProxyEvent, ProviderEvent, Proxy,
  same_status, change, take_out, send_taken, call_on_update, max_status_history, push_history,
  set_status, handle_event, handle_events, new_proxy,
}

-- Each change starts from the status that the one before it ended in, and changes it.
abbrev pub Chained : ProxyStatus → List ProxyEvent → Type 0
Chained s [] = s ≡ initializing
Chained s (u ∷ us) = (u.status ≡ s) × (u.old_status ≢ u.status) × Chained u.old_status us

abbrev pub statuses : List ProxyEvent → List ProxyStatus
statuses = map (λ u. u.status)

abbrev pub recorded : List StatusTransition → List ProxyStatus
recorded = map (λ t. t.status)

-- The changes lead from the initial status to the present one, the history shows the latest, and each is either
-- sent or waits to be.
pub record IsTraced (p : Proxy) : Type 0 where
  pub chained : Chained p.status p.changes
  pub history : recorded p.status_history ≡ last max_status_history (reverse (statuses p.changes))
  pub kept : Perm (p.pending ++ p.sent) p.changes

push_history_lem :
    (t : StatusTransition) (h : List StatusTransition)
    → push_history t h ≡ last max_status_history (h ++ t ∷ [])
unfolding push_history
push_history_lem t h = elim (Bool-cases (ltb max_status_history (length (h ++ t ∷ [])))) [
  | inl e ↦ rw e (unfold last in refl)
  | inr e ↦ rw (e, last-of_few max_status_history (h ++ t ∷ []) (ground arith))
]

same_status_iff : (s t : ProxyStatus) → same_status s t ≡ true → s ≡ t
same_status_iff s t h = ground arith

history_next :
    (t : StatusTransition) (u : ProxyEvent) (h : List StatusTransition) (us : List ProxyEvent)
    → t.status ≡ u.status
    → recorded h ≡ last max_status_history (reverse (statuses us))
    → recorded (push_history t h) ≡ last max_status_history (reverse (statuses (u ∷ us)))
history_next t u h us same v = rw (
  push_history_lem t h,
  map-last (λ x. x.status) max_status_history (h ++ t ∷ []),
  map-append (λ x. x.status) h (t ∷ []),
  same,
  v,
  reverse-cons u.status (statuses us),
  last-last_append max_status_history (reverse (statuses us)) u.status (omega arith),
)

same_status_refl : (s : ProxyStatus) → same_status s s ≡ true
same_status_refl s = ground arith

pub set_status-IsTraced :
    (now : ℕ) (s : ProxyStatus) (p : Proxy) → IsTraced p → IsTraced (set_status now s p)
unfolding set_status
set_status-IsTraced now s p v =
    if_both IsTraced (same_status p.status s) (λ _. v)
      (λ differs.
        if_both IsTraced (p.is_paused && not (same_status s paused)) (λ _. v)
          (λ _. record {
            chained = (refl, (λ e. cc (same_status_refl s, e, differs)), v.chained);
            history = history_next _ (change s p) p.status_history p.changes refl v.history;
            kept = Perm.cons (change s p) v.kept;
          }))

abbrev IsTaken : List ProxyEvent → Option (ProxyEvent × List ProxyEvent) → Type 0
IsTaken us none = Unit
IsTaken us (some (u, rest)) = Perm us (u ∷ rest)

kept_head :
    (x : ProxyEvent) (us : List ProxyEvent) (o : Option (ProxyEvent × List ProxyEvent))
    → IsTaken us o
    → IsTaken (x ∷ us) (Option.map (λ (u, rest). (u, x ∷ rest)) o)
kept_head x us none h = tt
kept_head x us (some (u, rest)) h = Perm.trans (Perm.cons x h) (Perm.swap u x rest)

take_out-IsTaken : (i : ℕ) (us : List ProxyEvent) → IsTaken us (take_out i us)
unfolding take_out
take_out-IsTaken i [] = tt
take_out-IsTaken zero (u ∷ us) = Perm.refl (u ∷ us)
take_out-IsTaken (suc i) (u ∷ us) = kept_head u us (take_out i us) (take_out-IsTaken i us)

send_taken-IsTraced :
    (p : Proxy) (o : Option (ProxyEvent × List ProxyEvent))
    → IsTaken p.pending o
    → IsTraced p
    → IsTraced (send_taken o p)
send_taken-IsTraced p none taken v = v
send_taken-IsTraced p (some (u, rest)) taken v = record {
  chained = v.chained;
  history = v.history;
  kept =
      Perm.trans (Perm.trans (perm_middle rest p.sent) (Perm.symm (Perm.append_right p.sent taken)))
        v.kept;
}

pub call_on_update-IsTraced : (i : ℕ) (p : Proxy) → IsTraced p → IsTraced (call_on_update i p)
unfolding call_on_update
call_on_update-IsTraced i p v =
    send_taken-IsTraced p (take_out i p.pending) (take_out-IsTaken i p.pending) v

pub handle_event-IsTraced :
    (e : ProviderEvent) (p : Proxy) → IsTraced p → IsTraced (handle_event e p)
unfolding handle_event
handle_event-IsTraced e p v =
    set_status-IsTraced e.now e.status _
      (record { chained = v.chained; history = v.history; kept = v.kept })

pub handle_events-IsTraced :
    (es : List ProviderEvent) (p : Proxy) → IsTraced p → IsTraced (handle_events es p)
unfolding handle_events
handle_events-IsTraced [] p v = v
handle_events-IsTraced (e ∷ es) p v =
    handle_events-IsTraced es (handle_event e p) (handle_event-IsTraced e p v)

pub new_proxy-IsTraced :
    (hostname : Text) (config_ports : Map Text PortConfig)
    → IsTraced (new_proxy hostname config_ports)
unfolding new_proxy last
new_proxy-IsTraced hostname config_ports = record {
  chained = refl;
  history = refl;
  kept = Perm.nil;
}
