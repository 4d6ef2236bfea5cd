-- ===== src/Router/Conservation.antt =====
-- Every run of the router keeps its connections together.
use mathlib.Core.Path.{subst}
use tsdproxy.Common.{
  ℕ, ◌+◌, ◌≡◌, refl, sym, ap, ◌∙◌, Bool, false, ◌||◌, List, [], ◌∷◌, ◌++◌, Option, none, some, ltb,
  arith, ◌==◌, if_both, length, length-append, get_elem?, set, Text, text_Eq, All, All-append,
  All-map,
}
use tsdproxy.Common.Maps.{lookup}
use tsdproxy.Config.{is_empty}
use tsdproxy.Router.Sniff.{Reader, RoutingMode}
use tsdproxy.Router.Listeners.{
  Conn, VirtualListener, conn_buffer_size, max_hostname_len, dispatch, PortRouter, is_in,
  close_conn, register, unregister, after_sniff, deliver, accept_ch, accept_from, handle_conn, Step,
  registers, unregisters, closes_all, closes, delivers, accepts, Reach, starts, arrives, moves,
}
use tsdproxy.Router.Counting.{
  one_if, count_ids, count_conns, count_on_way, count-close_conn, count_conns-append,
  count_on_way-append, count_made-set, domain_at-get, domain_at-set, All-set, All-get,
}
use tsdproxy.Router.Replay.{sniff-IsReplayed}
use tsdproxy.Router.Invariant.{
  IsQueue, IsAddressed, IsSound, some_text, one_if-le, new_port_router-IsSound, register_at-IsSound,
  unregister_at-IsSound, close_all-IsSound, close_listener-IsSound, send_to-IsSound, arrive_closed,
}

after_sniff-IsSound :
    (ids : List ℕ) (r : PortRouter) (id : ℕ) (host : Text) (reader : Reader)
    → is_in id ids ≡ false
    → IsSound ids r
    → IsSound (id ∷ ids) (after_sniff id (some (host, reader)) r)
after_sniff-IsSound ids r id host reader new v =
    if_both {A = PortRouter} (IsSound (id ∷ ids))
      (is_empty host || ltb max_hostname_len (length host)) (λ e. arrive_closed ids r id new v)
      (λ e.
        send_to-IsSound ids r (record { id = id; host = host; reader = reader })
          (lookup host r.listeners) refl new v)

-- A connection taken off its way.
module _ (ids : List ℕ) (r : PortRouter) (before after : List (Conn × ℕ)) (c : Conn) (p : ℕ)
    (vl : VirtualListener) (v : IsSound ids r) (way : r.on_way ≡ before ++ (c, p) ∷ after)
    (here : get_elem? r.made p ≡ some vl) where
  on_way_less :
      (i : ℕ) → count_on_way i r.on_way ≡ count_on_way i (before ++ after) + one_if (c.id == i)
  on_way_less i =
      ap (count_on_way i) way
      ∙ omega
          (arith, count_on_way-append i before ((c, p) ∷ after), count_on_way-append i before after)

  All-drop :
      (xs ys : List (Conn × ℕ))
      → All (IsAddressed r.made) (xs ++ (c, p) ∷ ys)
      → IsAddressed r.made (c, p) × All (IsAddressed r.made) (xs ++ ys)
  All-drop [] ys h = h
  All-drop (x ∷ xs) ys h = let (a, b) = All-drop xs ys h.1 in (a, (h.0, b))

  taken_off : IsAddressed r.made (c, p) × All (IsAddressed r.made) (before ++ after)
  taken_off = All-drop before after (subst (λ w. All (IsAddressed r.made) w) way v.addressed)

  same_host : c.host ≡ vl.domain
  same_host = some_text (sym taken_off.0 ∙ domain_at-get r.made p vl here)

  unclosed : count_ids c.id r.closed ≡ 0
  unclosed = ground (arith, v.placed c.id, one_if-le (is_in c.id ids), on_way_less c.id)

  -- The listener after the call, and the closed connections.
  deliver_with :
      (wl : VirtualListener) (closed : List ℕ)
      → wl.domain ≡ vl.domain
      → IsQueue wl
      → ((i : ℕ)
          → count_conns i wl.ch + count_ids i closed
            ≡ count_conns i vl.ch + (count_ids i r.closed + one_if (c.id == i)))
      → IsSound ids (record r { on_way = before ++ after; made = set r.made p wl; closed = closed })
  deliver_with wl closed d q n =
      let a = domain_at-get r.made p vl here in
      record {
        placed = λ i.
            omega (arith, v.placed i, on_way_less i, count_made-set i r.made p vl wl here, n i);
        queued = All-set IsQueue r.made p wl v.queued q;
        addressed =
            All-map (λ cp g. domain_at-set r.made p cp.1 wl (a ∙ ap some (sym d)) ∙ g)
              (before ++ after) taken_off.1;
        listed = λ k q f. domain_at-set r.made p q wl (a ∙ ap some (sym d)) ∙ v.listed k q f;
      }

  deliver-IsSound :
      IsSound ids (deliver c p (dispatch c vl) (record r { on_way = before ++ after }))
  unfolding dispatch
  deliver-IsSound =
      let queue = All-get IsQueue r.made p vl v.queued here in
      let P = λ (x : Bool × VirtualListener).
        IsSound ids (deliver c p x (record r { on_way = before ++ after })) in
      if_both {A = Bool × VirtualListener} P vl.closed
        (λ e.
          deliver_with vl (close_conn c.id r.closed) refl queue
            (λ i. omega (arith, count-close_conn i c.id r.closed unclosed)))
        (λ e.
          if_both {A = Bool × VirtualListener} P (ltb (length vl.ch) conn_buffer_size)
            (λ fits.
              deliver_with (record vl { ch = vl.ch ++ c ∷ [] }) r.closed refl
                (
                  All-append (λ x. x.host ≡ vl.domain) vl.ch (c ∷ []) queue.0 (same_host, tt),
                  ground (arith, e, fits, length-append vl.ch (c ∷ [])),
                )
                (λ i. omega (arith, count_conns-append i vl.ch (c ∷ []))))
            (λ full.
              deliver_with (record vl { dropped_count = vl.dropped_count + 1 })
                (close_conn c.id r.closed) refl queue
                (λ i. omega (arith, count-close_conn i c.id r.closed unclosed))))

accept_ch-IsSound :
    (ids : List ℕ) (r : PortRouter) (p : ℕ) (vl : VirtualListener) (cs : List Conn)
    → get_elem? r.made p ≡ some vl
    → vl.ch ≡ cs
    → IsSound ids r
    → IsSound ids (accept_ch p vl cs r)
accept_ch-IsSound ids r p vl [] e f v = v
accept_ch-IsSound ids r p vl (c ∷ cs) e f v =
    let wl = record vl { ch = cs } in
    let x = domain_at-get r.made p vl e in
    let queue = All-get IsQueue r.made p vl v.queued e in
    let hosts = subst (λ l. All (λ a. a.host ≡ vl.domain) l) f queue.0 in
    record {
      placed =
          λ i. omega (arith, v.placed i, ap (count_conns i) f, count_made-set i r.made p vl wl e);
      queued = All-set IsQueue r.made p wl v.queued (hosts.1, omega (arith, queue.1, ap length f));
      addressed = All-map (λ cp g. domain_at-set r.made p cp.1 wl x ∙ g) r.on_way v.addressed;
      listed = λ k q g. domain_at-set r.made p q wl x ∙ v.listed k q g;
    }

accept-IsSound :
    (ids : List ℕ) (r : PortRouter) (p : ℕ) (o : Option VirtualListener)
    → get_elem? r.made p ≡ o
    → IsSound ids r
    → IsSound ids (accept_from p o r)
accept-IsSound ids r p none e v = v
accept-IsSound ids r p (some vl) e v = accept_ch-IsSound ids r p vl vl.ch e refl v

module _ (split_host : Text → Option Text) (read_request : Text → Option Text)
    (hello_name : Text → Text) (mode : RoutingMode) where
  Step-IsSound :
      (ids : List ℕ) (r s : PortRouter)
      → Step split_host read_request hello_name mode r s
      → IsSound ids r
      → IsSound ids s
  unfolding register unregister
  Step-IsSound ids r s (registers d e) v =
      rw e (register_at-IsSound ids r d (lookup d r.listeners) refl v)
  Step-IsSound ids r s (unregisters d e) v =
      rw e (unregister_at-IsSound ids r d (lookup d r.listeners) v)
  Step-IsSound ids r s (closes_all e) v = rw e (close_all-IsSound ids r v)
  Step-IsSound ids r s (closes p e) v =
      rw e (close_listener-IsSound ids r p (get_elem? r.made p) refl v)
  Step-IsSound ids r s (delivers before after c p vl way here e) v =
      rw e (deliver-IsSound ids r before after c p vl v way here)
  Step-IsSound ids r s (accepts p e) v = rw e (accept-IsSound ids r p (get_elem? r.made p) refl v)

  handle_conn-IsSound :
      (ids : List ℕ) (r : PortRouter) (id : ℕ) (reader : Reader)
      → is_in id ids ≡ false
      → IsSound ids r
      → IsSound (id ∷ ids) (handle_conn split_host read_request hello_name mode id reader r)
  unfolding handle_conn
  handle_conn-IsSound ids r id reader new v =
      let (host, after, e, kept) =
        sniff-IsReplayed split_host read_request hello_name mode reader in
      rw e (after_sniff-IsSound ids r id host after new v)

  -- Whatever domains are registered and unregistered, whenever listeners are closed, and however the connections
  -- come in, are delivered and accepted: each connection that came in is in exactly one place, on its way, in the
  -- queue of one listener, accepted or closed, and no other is in any. What waits in a listener, at most 64
  -- connections and none in a closed one, is for the listener's domain, and the entry of a domain leads to a
  -- listener that was made for it.
  pub Reach-IsSound :
      (ids : List ℕ) (r : PortRouter)
      → Reach split_host read_request hello_name mode ids r
      → IsSound ids r
  Reach-IsSound ids r starts = new_port_router-IsSound
  Reach-IsSound ids r (arrives old s id reader h new) =
      handle_conn-IsSound old s id reader new (Reach-IsSound old s h)
  Reach-IsSound ids r (moves old q s h step) = Step-IsSound old q s step (Reach-IsSound old q h)
