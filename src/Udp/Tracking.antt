-- ===== src/Udp/Tracking.antt =====
-- Every step of the port keeps its sockets tracked.
use tsdproxy.Common.{
  ℕ, ◌≤◌, ◌<◌, ◌≡◌, inl, inr, refl, sym, ap, ◌∙◌, Bool, true, false, List, [], Option, none, some,
  leb, arith, ◌==◌, if_both, Bool-cases, length, Text, text_Eq, text_eq_iff,
}
use tsdproxy.Common.Maps.{lookup, insert, erase, lookup-insert, length-erase-lt, length-erase-le}
use tsdproxy.Config.{is_empty}
use tsdproxy.Udp.{
  ClientEntry, UdpPort, new_port_udp, udp_max_clients, is_open, close_socket, evict_oldest_client,
  Session, allowed, known, find_session, dial, install_allowed, install_at, install, forget_found,
  forget_client, Step, finds, dials, installs, relay_closes, relay_forgets, closes, cancels, ends,
  Reach, starts, moves,
}
use tsdproxy.Udp.Eviction.{IsKeyed, IsDistinct, evict_oldest_client-IsEvicted}
use tsdproxy.Udp.Sockets.{
  is_open-close_socket, still_open, conn_of, conn_or, IsKeyed-insert, IsKeyed-erase,
  IsDistinct-insert, IsDistinct-erase, length-insert_new, IsHeld, IsHeld-insert, IsHeld-erase,
  IsTidy, allowed-IsTidy, close_socket-IsTidy, close_all_clients-IsTidy, ends-IsTidy,
  give_up-IsTidy, erase-IsTidy,
}

abbrev key_of : Option (Text × ℕ) → Text
key_of none = []
key_of (some (k, c)) = k

same_key :
    (key k : Text) (a c : ℕ)
    → ◌≡◌ {A = Option (Text × ℕ)} (some (key, a)) (some (k, c))
    → is_empty key ≡ false
    → is_empty k ≡ false
same_key key k a c e n = ap (λ x. is_empty (key_of x)) (sym e) ∙ n

number_same : (a b c : ℕ) → a == b ≡ true → a ≡ c → b ≡ c
number_same a b c e f = ground (arith, e, f)

is_shut : (a c : ℕ) (cs : List ℕ) → a ≡ c → is_open c (close_socket a cs) ≡ true → ⊥
is_shut a c cs e o = ground (arith, e, o, is_open-close_socket a c cs)

module _ {ℓ} {L : Type ℓ} where
  -- A table that may be full, and the sockets that it has.
  record IsFull (p : UdpPort L) : Type ℓ where
    keyed : IsKeyed p.client_map
    distinct : IsDistinct p.client_map
    full : length p.client_map ≤ udp_max_clients
    held : (c : ℕ) → is_open c p.sockets ≡ true → IsHeld c p.client_map

  install_new-IsFull :
      (p : UdpPort L) (key : Text) (e : ClientEntry L)
      → lookup key p.client_map ≡ none
      → p.dialled ≡ some (key, e.conn)
      → IsTidy p
      → IsFull (record p { client_map = insert key e p.client_map; dialled = none })
  install_new-IsFull p key e new d v = record {
    keyed = IsKeyed-insert key e p.client_map (v.named key e.conn d) v.keyed;
    distinct = IsDistinct-insert key e p.client_map v.distinct;
    full = omega (arith, v.small, length-insert_new key e p.client_map);
    held = λ c o. elim (v.tracked c o) [
      | inl (k, f) ↦ (
        key,
        e,
        ground (arith, lookup-insert key key e p.client_map, text_eq_iff key key),
        same_conn key k e.conn c (sym d ∙ f),
      )
      | inr h ↦ IsHeld-insert c key e p.client_map (λ x g. cc (sym new ∙ g)) h
    ];
  }
    where
      same_conn :
          (j k : Text) (a b : ℕ) → ◌≡◌ {A = Option (Text × ℕ)} (some (j, a)) (some (k, b)) → a ≡ b
      same_conn j k a b f = ap conn_of f

  -- A table below the limit is as it should be, and so is a full one after an eviction.
  fits-IsTidy :
      (p : UdpPort L)
      → p.ended ≡ false
      → p.dialled ≡ none
      → IsFull p
      → length p.client_map < udp_max_clients
      → IsTidy p
  fits-IsTidy p live idle v n = record {
    keyed = v.keyed;
    distinct = v.distinct;
    small = n;
    named = λ k c e. cc (sym idle ∙ e);
    tracked = λ c o. inr (v.held c o);
    over = λ e. cc (sym live ∙ e);
  }

  evicted-IsTidy :
      (p : UdpPort L)
      → p.ended ≡ false
      → IsFull p
      → 1 ≤ length p.client_map
      → IsTidy (record (evict_oldest_client p) { dialled = none })
  evicted-IsTidy p live v n =
      let w = evict_oldest_client-IsEvicted p v.keyed v.distinct n in
      let q = record p {
        sockets = close_socket w.entry.conn p.sockets;
        client_map = erase w.key p.client_map;
        dialled = none;
      } in
      let tidy =
        fits-IsTidy q live refl
          (record {
            keyed = IsKeyed-erase w.key p.client_map v.keyed;
            distinct = IsDistinct-erase w.key p.client_map v.distinct;
            full = omega (arith, v.full, length-erase-le w.key p.client_map);
            held = λ c o.
                IsHeld-erase c w.key p.client_map
                  (λ d f g.
                    is_shut w.entry.conn c p.sockets (ap (conn_or 0) (sym w.was_there ∙ f) ∙ g) o)
                  (v.held c (still_open w.entry.conn c p.sockets o));
          })
          (omega (arith, v.full, length-erase-lt w.key w.entry p.client_map w.was_there)) in
      rw w.removed tidy

  forget_found-IsTidy :
      (p : UdpPort L) (key : Text) (conn : ℕ) (o : Option (ClientEntry L))
      → lookup key p.client_map ≡ o
      → is_open conn p.sockets ≡ false
      → IsTidy p
      → IsTidy (forget_found key conn o p)
  forget_found-IsTidy p key conn none e shut v = v
  forget_found-IsTidy p key conn (some x) e shut v =
      if_both {A = UdpPort L} IsTidy (x.conn == conn)
        (λ same. record {
          keyed = IsKeyed-erase key p.client_map v.keyed;
          distinct = IsDistinct-erase key p.client_map v.distinct;
          small = omega (arith, v.small, length-erase-le key p.client_map);
          named = v.named;
          tracked = λ c o. elim (v.tracked c o) [
            | inl waiting ↦ inl waiting
            | inr held ↦ inr (IsHeld-erase c key p.client_map (λ d f g. other c d o f g same) held)
          ];
          over = v.over;
        })
        (λ differs. v)
    where
      other :
          (c : ℕ) (d : ClientEntry L)
          → is_open c p.sockets ≡ true
          → lookup key p.client_map ≡ some d
          → d.conn ≡ c
          → x.conn == conn ≡ true
          → ⊥
      other c d o f g same =
          let named = ap (conn_or 0) (sym e ∙ f) ∙ g in
          cc (sym shut ∙ ap (λ i. is_open i p.sockets) (number_same x.conn conn c same named) ∙ o)

module _ {ℓ} {L : Type ℓ} (allow : L → ℕ → Bool × L) (new_limiter : L) where
  install_allowed-IsTidy :
      (p : UdpPort L) (key : Text) (conn now : ℕ) (bl : Bool × L)
      → lookup key p.client_map ≡ none
      → p.ended ≡ false
      → p.dialled ≡ some (key, conn)
      → IsTidy p
      → IsTidy (record (install_allowed allow new_limiter key conn now bl p).1 { dialled = none })
  install_allowed-IsTidy p key conn now (false, l) e live d v =
      erase-IsTidy (record p { sockets = close_socket conn p.sockets; dialled = none }) key e
        (give_up-IsTidy p key conn d v)
  install_allowed-IsTidy p key conn now (true, l) e live d v =
      let x : ClientEntry L = record { conn = conn; last_seen = now; limiter = l } in
      let entered = record p { client_map = insert key x p.client_map } in
      let full = install_new-IsFull p key x e d v in
      if_both {A = UdpPort L} (λ s. IsTidy (record s { dialled = none }))
        (leb udp_max_clients (length entered.client_map))
        (λ over.
          evicted-IsTidy entered live
            (record {
              keyed = full.keyed;
              distinct = full.distinct;
              full = full.full;
              held = full.held;
            })
            (ground (arith, over)))
        (λ fits.
          fits-IsTidy (record entered { dialled = none }) live refl full (ground (arith, fits)))

  install_at-IsTidy :
      (p : UdpPort L) (key : Text) (conn now : ℕ) (o : Option (ClientEntry L))
      → lookup key p.client_map ≡ o
      → p.ended ≡ false
      → p.dialled ≡ some (key, conn)
      → IsTidy p
      → IsTidy (record (install_at allow new_limiter key conn now o p).1 { dialled = none })
  install_at-IsTidy p key conn now none e live d v =
      install_allowed-IsTidy p key conn now (allow new_limiter now) e live d v
  install_at-IsTidy p key conn now (some x) e live d v =
      give_up-IsTidy (allowed allow new_limiter key x now (allow x.limiter now) p).1 key conn d (
        allowed-IsTidy allow new_limiter key x now (allow x.limiter now) p e (v.named key conn d) v)

  install-IsTidy :
      (p : UdpPort L) (key : Text) (conn now : ℕ)
      → p.ended ≡ false
      → p.dialled ≡ some (key, conn)
      → IsTidy p
      → IsTidy (record (install allow new_limiter key conn now p).1 { dialled = none })
  unfolding install
  install-IsTidy p key conn now live d v =
      if_both {A = Session × UdpPort L} (λ s. IsTidy (record s.1 { dialled = none })) p.canceled
        (λ c. give_up-IsTidy p key conn d v)
        (λ c. install_at-IsTidy p key conn now (lookup key p.client_map) refl live d v)

  known-IsTidy :
      (p : UdpPort L) (key : Text) (now : ℕ) (o : Option (ClientEntry L))
      → lookup key p.client_map ≡ o
      → is_empty key ≡ false
      → IsTidy p
      → IsTidy (known allow new_limiter key now o p).1
  known-IsTidy p key now none e n v = v
  known-IsTidy p key now (some x) e n v =
      allowed-IsTidy allow new_limiter key x now (allow x.limiter now) p e n v

  dial-IsTidy :
      (p : UdpPort L) (key : Text)
      → is_empty key ≡ false
      → p.ended ≡ false
      → p.dialled ≡ none
      → IsTidy p
      → IsTidy (dial allow new_limiter key p)
  unfolding dial
  dial-IsTidy p key n live idle v = record {
    keyed = v.keyed;
    distinct = v.distinct;
    small = v.small;
    named = λ k c e. same_key key k p.next c e n;
    tracked = λ c o. elim (Bool-cases (p.next == c)) [
      | inl same ↦ inl (key, ap (λ i. some (key, i)) (ground (arith, same)))
      | inr other ↦ elim (v.tracked c (ground (arith, other, o))) [
        | inl (k, e) ↦ cc (sym idle ∙ e)
        | inr held ↦ inr held
      ]
    ];
    over = λ e. cc (sym live ∙ e);
  }

  Step-IsTidy : (p q : UdpPort L) → Step allow new_limiter p q → IsTidy p → IsTidy q
  unfolding find_session forget_client
  Step-IsTidy p q (finds key now live n e) v =
      rw e (known-IsTidy p key now (lookup key p.client_map) refl n v)
  Step-IsTidy p q (dials key live n idle e) v = rw e (dial-IsTidy p key n live idle v)
  Step-IsTidy p q (installs key conn now live d e) v = rw e (install-IsTidy p key conn now live d v)
  Step-IsTidy p q (relay_closes conn e) v = rw e (close_socket-IsTidy conn p v)
  Step-IsTidy p q (relay_forgets key conn shut e) v =
      rw e (forget_found-IsTidy p key conn (lookup key p.client_map) refl shut v)
  Step-IsTidy p q (closes e) v = rw e (close_all_clients-IsTidy p v)
  Step-IsTidy p q (cancels e) v = rw e (record {
    keyed = v.keyed;
    distinct = v.distinct;
    small = v.small;
    named = v.named;
    tracked = v.tracked;
    over = v.over;
  })
  Step-IsTidy p q (ends idle e) v = rw e (ends-IsTidy p idle v)

  -- In whatever order packets, dials, relays, the closing of the port and the end of its loop come: the table
  -- stays below 1024 clients, every open socket is an entry's or is just being dialled, and once the loop has
  -- ended no socket is open.
  pub Reach-IsTidy : (p : UdpPort L) → Reach allow new_limiter p → IsTidy p
  unfolding new_port_udp lookup
  Reach-IsTidy p starts = record {
    keyed = tt;
    distinct = tt;
    small = omega arith;
    named = λ k c e. cc;
    tracked = λ c o. cc;
    over = λ e. cc;
  }
  Reach-IsTidy p (moves o q r step) = Step-IsTidy o q step (Reach-IsTidy o r)
