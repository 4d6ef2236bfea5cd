-- ===== src/Manager/Watch.antt =====
-- The stream of a target provider's events: `WatchEvents` and `reconnectBackoff` of
-- internal/proxymanager/events.go. A run ends where the context is canceled.
use tsdproxy.Common.{
  ℕ, suc, ◌*◌, ◌^◌, ◌≤◌, ◌≡◌, refl, sym, ap, ◌∙◌, min, List, [], ◌∷◌, ◌++◌, arith, if◌then◌else◌,
  Text, append_assoc, append-nil,
}
use tsdproxy.Common.Int.{pos, pos_part, ltb_ℤ}
use tsdproxy.Health.{int64, second}

abbrev pub max_watch_backoff : ℕ
max_watch_backoff = 300 * second

-- What the loop selects: an event of the target `id`, the end of the stream, or an error of it.
pub data Signal : Type 0 where
  event : Text → Signal
  stream_closed stream_error : Signal

-- The next backoff, after waiting for the present one.
unfoldable pub reconnect_backoff : ℕ → ℕ
reconnect_backoff current =
    let next = int64 (current * 2) in
    if ltb_ℤ (pos max_watch_backoff) next then max_watch_backoff else pos_part next

pub record Watch : Type 0 where
  pub backoff : ℕ
  pub dispatched : List Text
  -- the waits before the reconnections
  pub waits : List ℕ

unfoldable pub watch_start : Watch
watch_start = record { backoff = second; dispatched = []; waits = [] }

unfoldable pub reconnect : Watch → Watch
unfolding reconnect_backoff
reconnect w = record w { backoff = reconnect_backoff w.backoff; waits = w.waits ++ w.backoff ∷ [] }

unfoldable pub watch_signal : Signal → Watch → Watch
unfolding reconnect
watch_signal (event id) w = record w { backoff = second; dispatched = w.dispatched ++ id ∷ [] }
watch_signal stream_closed w = reconnect w
watch_signal stream_error w = reconnect w

unfoldable pub watch_events : List Signal → Watch → Watch
unfolding watch_signal
watch_events [] w = w
watch_events (s ∷ ss) w = watch_events ss (watch_signal s w)

-- The reconnections since the last event, counted on.
abbrev pub losses : List Signal → ℕ → ℕ
losses [] n = n
losses (event id ∷ ss) n = losses ss 0
losses (stream_closed ∷ ss) n = losses ss (suc n)
losses (stream_error ∷ ss) n = losses ss (suc n)

abbrev pub events_of : List Signal → List Text
events_of [] = []
events_of (event id ∷ ss) = id ∷ events_of ss
events_of (stream_closed ∷ ss) = events_of ss
events_of (stream_error ∷ ss) = events_of ss

-- What is waited for each reconnection, by the losses before it.
abbrev pub waits_of : List Signal → ℕ → List ℕ
waits_of [] n = []
waits_of (event id ∷ ss) n = waits_of ss 0
waits_of (stream_closed ∷ ss) n = min (second * 2 ^ n) max_watch_backoff ∷ waits_of ss (suc n)
waits_of (stream_error ∷ ss) n = min (second * 2 ^ n) max_watch_backoff ∷ waits_of ss (suc n)

doubled : (b : ℕ) → b ≤ max_watch_backoff → reconnect_backoff b ≡ min (b * 2) max_watch_backoff
unfolding reconnect_backoff int64
doubled b h = ground arith

doubled_min :
    (p q : ℕ)
    → q ≡ p * 2
    → min (min (second * p) max_watch_backoff * 2) max_watch_backoff
      ≡ min (second * q) max_watch_backoff
doubled_min p q e = ground arith

reconnect_lem :
    (n b : ℕ)
    → b ≡ min (second * 2 ^ n) max_watch_backoff
    → reconnect_backoff b ≡ min (second * 2 ^ suc n) max_watch_backoff
reconnect_lem n b e =
    let small : b ≤ max_watch_backoff = ground (arith, e) in
    doubled b small
    ∙ ap (λ x. min (x * 2) max_watch_backoff) e
    ∙ doubled_min (2 ^ n) (2 ^ suc n) (grind arith)

watch_from :
    (ss : List Signal) (n : ℕ) (w : Watch)
    → w.backoff ≡ min (second * 2 ^ n) max_watch_backoff
    → ((watch_events ss w).backoff ≡ min (second * 2 ^ losses ss n) max_watch_backoff)
      × ((watch_events ss w).dispatched ≡ w.dispatched ++ events_of ss)
      × ((watch_events ss w).waits ≡ w.waits ++ waits_of ss n)
unfolding watch_events watch_signal reconnect
watch_from [] n w e = (e, sym (append-nil w.dispatched), sym (append-nil w.waits))
watch_from (event id ∷ ss) n w e =
    let r =
      watch_from ss 0 (record w { backoff = second; dispatched = w.dispatched ++ id ∷ [] }) refl in
    (r.0, r.1 ∙ append_assoc w.dispatched (id ∷ []) (events_of ss), r.2)
watch_from (stream_closed ∷ ss) n w e =
    let r = watch_from ss (suc n) (reconnect w) (reconnect_lem n w.backoff e) in
    (
      r.0,
      r.1,
      r.2
          ∙ append_assoc w.waits (w.backoff ∷ []) (waits_of ss (suc n))
          ∙ ap (λ x. w.waits ++ x ∷ waits_of ss (suc n)) e,
    )
watch_from (stream_error ∷ ss) n w e =
    let r = watch_from ss (suc n) (reconnect w) (reconnect_lem n w.backoff e) in
    (
      r.0,
      r.1,
      r.2
          ∙ append_assoc w.waits (w.backoff ∷ []) (waits_of ss (suc n))
          ∙ ap (λ x. w.waits ++ x ∷ waits_of ss (suc n)) e,
    )

-- Over any signals every event is dispatched, in order, and each reconnection waits a second doubled
-- once for each reconnection since the last event, cut to five minutes.
pub watch_events_lem :
    (ss : List Signal)
    → ((watch_events ss watch_start).dispatched ≡ events_of ss)
      × ((watch_events ss watch_start).waits ≡ waits_of ss 0)
unfolding watch_start
watch_events_lem ss = let r = watch_from ss 0 watch_start refl in (r.1, r.2)
