-- ===== src/Udp.antt =====
-- The sessions of a UDP port: internal/proxymanager/port_udp.go. A packet's way is in three parts, since the
-- target is dialled without the lock; an entry of the table always has a socket, and is known by it.
use tsdproxy.Common.{
  ℕ, ◌+◌, ◌≡◌, Bool, true, false, not, ◌&&◌, ◌||◌, List, [], ◌∷◌, Option, none, some, ltb, leb,
  ◌==◌, if◌then◌else◌, length, Text, text_Eq,
}
use tsdproxy.Common.Maps.{Map, lookup, insert, erase}
use tsdproxy.Config.{is_empty}
pub mod Eviction
pub mod Sockets
pub mod Tracking
mod Tests

abbrev pub udp_max_clients : ℕ
udp_max_clients = 1024

-- `L` is the type of the limiters of golang.org/x/time/rate.
pub record ClientEntry {ℓ} (L : Type ℓ) : Type ℓ where
  pub conn : ℕ
  pub last_seen : ℕ
  pub limiter : L

-- The table, the open sockets, the one that is dialled for a client and not yet entered, whether the
-- context is canceled, and whether the loop that relays packets has ended.
pub record UdpPort {ℓ} (L : Type ℓ) : Type ℓ where
  pub client_map : Map Text (ClientEntry L)
  pub sockets : List ℕ
  pub dialled : Option (Text × ℕ)
  pub next : ℕ
  pub canceled : Bool
  pub ended : Bool

abbrev pub is_open : ℕ → List ℕ → Bool
is_open c [] = false
is_open c (d ∷ ds) = d == c || is_open c ds

-- `Close` of a socket, which has an effect only once.
unfoldable pub close_socket : ℕ → List ℕ → List ℕ
close_socket c [] = []
close_socket c (d ∷ ds) = if d == c then close_socket c ds else d ∷ close_socket c ds

-- A round of the search for the client that was seen longest ago.
abbrev pub older : Text × ℕ → Text → ℕ → Text × ℕ
older (oldest_key, oldest_time) k seen =
    if is_empty oldest_key || ltb seen oldest_time then (k, seen) else (oldest_key, oldest_time)

-- What a look-up of the client's session gives.
pub data Session : Type 0 where
  session : ℕ → Session
  rate_limited : Session
  no_session : Session
  port_closed : Session

module _ {ℓ} {L : Type ℓ} where
  unfoldable pub new_port_udp : UdpPort L
  new_port_udp = record {
    client_map = [];
    sockets = [];
    dialled = none;
    next = 0;
    canceled = false;
    ended = false;
  }

  unfoldable pub close_each : Map Text (ClientEntry L) → List ℕ → List ℕ
  unfolding close_socket
  close_each [] sockets = sockets
  close_each ((k, e) ∷ m) sockets = close_each m (close_socket e.conn sockets)

  -- The entries stay in the table.
  unfoldable pub close_all_clients : UdpPort L → UdpPort L
  unfolding close_each
  close_all_clients p = record p { sockets = close_each p.client_map p.sockets }

  unfoldable pub oldest_of : Map Text (ClientEntry L) → Text × ℕ → Text × ℕ
  oldest_of [] best = best
  oldest_of ((k, e) ∷ m) best = oldest_of m (older best k e.last_seen)

  abbrev pub evict_found : Text → Option (ClientEntry L) → UdpPort L → UdpPort L
  evict_found k none p = p
  evict_found k (some e) p = record p {
    sockets = close_socket e.conn p.sockets;
    client_map = erase k p.client_map;
  }

  unfoldable pub evict_oldest_client : UdpPort L → UdpPort L
  unfolding oldest_of close_socket
  evict_oldest_client p =
      let k = (oldest_of p.client_map ([], 0)).0 in evict_found k (lookup k p.client_map) p

  module _ (allow : L → ℕ → Bool × L) (new_limiter : L) where
    abbrev pub allowed : Text → ClientEntry L → ℕ → Bool × L → UdpPort L → Session × UdpPort L
    allowed key e now (b, l) p = (
      if b then session e.conn else rate_limited,
      record p { client_map = insert key (record e { last_seen = now; limiter = l }) p.client_map },
    )

    abbrev pub known : Text → ℕ → Option (ClientEntry L) → UdpPort L → Session × UdpPort L
    known key now none p = (no_session, p)
    known key now (some e) p = allowed key e now (allow e.limiter now) p

    -- The first part of `getOrCreateBackendConn`.
    unfoldable pub find_session : Text → ℕ → UdpPort L → Session × UdpPort L
    find_session key now p = known key now (lookup key p.client_map) p

    -- The second part, where dialling succeeds.
    unfoldable pub dial : Text → UdpPort L → UdpPort L
    dial key p = record p {
      sockets = p.next ∷ p.sockets;
      dialled = some (key, p.next);
      next = p.next + 1;
    }

    -- An entry that its own limiter refuses at once is taken out again.
    abbrev pub install_allowed : Text → ℕ → ℕ → Bool × L → UdpPort L → Session × UdpPort L
    install_allowed key conn now (false, l) p = (
      rate_limited,
      record p { sockets = close_socket conn p.sockets; client_map = erase key p.client_map },
    )
    install_allowed key conn now (true, l) p =
        let entered = record p {
          client_map =
              insert key (record { conn = conn; last_seen = now; limiter = l }) p.client_map;
        } in
        (
          session conn,
          if leb udp_max_clients (length entered.client_map)
              then evict_oldest_client entered
              else entered,
        )

    abbrev pub install_at : Text → ℕ → ℕ → Option (ClientEntry L) → UdpPort L → Session × UdpPort L
    install_at key conn now none p = install_allowed key conn now (allow new_limiter now) p
    install_at key conn now (some e) p =
        let (found, q) = allowed key e now (allow e.limiter now) p in
        (found, record q { sockets = close_socket conn q.sockets })

    -- The third part.
    unfoldable pub install : Text → ℕ → ℕ → UdpPort L → Session × UdpPort L
    unfolding close_socket evict_oldest_client
    install key conn now p =
        if p.canceled
        then (port_closed, record p { sockets = close_socket conn p.sockets })
        else install_at key conn now (lookup key p.client_map) p

  abbrev pub forget_found : Text → ℕ → Option (ClientEntry L) → UdpPort L → UdpPort L
  forget_found key conn none p = p
  forget_found key conn (some e) p =
      if e.conn == conn then record p { client_map = erase key p.client_map } else p

  -- The deferred part of `relayBackendToClient`: the socket is closed first, the entry is removed later.
  unfoldable pub forget_client : Text → ℕ → UdpPort L → UdpPort L
  forget_client key conn p = forget_found key conn (lookup key p.client_map) p

module _ {ℓ} {L : Type ℓ} (allow : L → ℕ → Bool × L) (new_limiter : L) where
  -- What the loop of packets, the relays back and `close` do, in any order. The loop dials for one client at a
  -- time; a relay forgets its client after it closed the socket.
  pub data Step (p q : UdpPort L) : Type ℓ where
    finds :
        (key : Text) (now : ℕ)
        → p.ended ≡ false
        → is_empty key ≡ false
        → q ≡ (find_session allow new_limiter key now p).1
        → Step p q
    dials :
        (key : Text)
        → p.ended ≡ false
        → is_empty key ≡ false
        → p.dialled ≡ none
        → q ≡ dial allow new_limiter key p
        → Step p q
    installs :
        (key : Text) (conn now : ℕ)
        → p.ended ≡ false
        → p.dialled ≡ some (key, conn)
        → q ≡ record (install allow new_limiter key conn now p).1 { dialled = none }
        → Step p q
    relay_closes : (conn : ℕ) → q ≡ record p { sockets = close_socket conn p.sockets } → Step p q
    relay_forgets :
        (key : Text) (conn : ℕ)
        → is_open conn p.sockets ≡ false
        → q ≡ forget_client key conn p
        → Step p q
    closes : q ≡ close_all_clients p → Step p q
    cancels : q ≡ record p { canceled = true } → Step p q
    ends : p.dialled ≡ none → q ≡ record (close_all_clients p) { ended = true } → Step p q

  pub data Reach : UdpPort L → Type ℓ where
    starts : Reach new_port_udp
    moves : (p q : UdpPort L) → Reach p → Step p q → Reach q
