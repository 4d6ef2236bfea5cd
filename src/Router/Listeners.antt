-- ===== src/Router/Listeners.antt =====
-- The listeners of the domains and the connections that are on their way to one:
-- internal/proxyproviders/tailscale/virtual_listener.go, and `Register`, `Unregister`, `CloseAll` and
-- `handleConn` of port_router.go. A pointer to a listener is its index in the list of those made.
use tsdproxy.Common.{
  ℕ, ◌+◌, ◌≡◌, Bool, true, false, ◌||◌, List, [], ◌∷◌, ◌++◌, Option, none, some, ltb, ◌==◌,
  if◌then◌else◌, length, get_elem?, set, Text, text_Eq,
}
use tsdproxy.Common.Maps.{Map, lookup, insert, erase}
use tsdproxy.Config.{is_empty}
use tsdproxy.Router.Sniff.{Reader, RoutingMode, sniff}

-- A connection, with the host that was read off it.
pub record Conn : Type 0 where
  pub id : ℕ
  pub host : Text
  pub reader : Reader

pub record VirtualListener : Type 0 where
  pub domain : Text
  pub ch : List Conn
  pub closed : Bool
  pub dropped_count : ℕ

abbrev pub conn_buffer_size : ℕ
conn_buffer_size = 64

abbrev pub max_hostname_len : ℕ
max_hostname_len = 253

abbrev pub new_virtual_listener : Text → VirtualListener
new_virtual_listener domain = record { domain = domain; ch = []; closed = false; dropped_count = 0 }

-- Whether the connection was sent; if not, it is closed.
unfoldable pub dispatch : Conn → VirtualListener → Bool × VirtualListener
dispatch c vl =
    if vl.closed
    then (false, vl)
    else if ltb (length vl.ch) conn_buffer_size
    then (true, record vl { ch = vl.ch ++ c ∷ [] })
    else (false, record vl { dropped_count = vl.dropped_count + 1 })

-- The listener behind `Close`, whose drain closes what waited.
abbrev pub shut : VirtualListener → VirtualListener
shut vl = record vl { ch = []; closed = true }

-- The router with the listeners made, the connections on their way, and those accepted and closed.
pub record PortRouter : Type 0 where
  pub listeners : Map Text ℕ
  pub made : List VirtualListener
  pub on_way : List (Conn × ℕ)
  pub accepted : List ℕ
  pub closed : List ℕ

abbrev pub new_port_router : PortRouter
new_port_router = record { listeners = []; made = []; on_way = []; accepted = []; closed = [] }

abbrev pub is_in : ℕ → List ℕ → Bool
is_in i [] = false
is_in i (j ∷ js) = j == i || is_in i js

-- A second `Close` of a connection has no effect.
abbrev pub close_conn : ℕ → List ℕ → List ℕ
close_conn i js = if is_in i js then js else i ∷ js

abbrev pub close_conns : List Conn → List ℕ → List ℕ
close_conns [] js = js
close_conns (c ∷ cs) js = close_conns cs (close_conn c.id js)

abbrev pub register_at : Option ℕ → Text → PortRouter → Bool × PortRouter
register_at (some p) domain r = (false, r)
register_at none domain r = (
  true,
  record r {
    listeners = insert domain (length r.made) r.listeners;
    made = r.made ++ new_virtual_listener domain ∷ [];
  },
)

unfoldable pub register : Text → PortRouter → Bool × PortRouter
register domain r = register_at (lookup domain r.listeners) domain r

-- `Close` of the listener at a pointer; only the first call does anything.
abbrev pub close_listener : ℕ → Option VirtualListener → PortRouter → PortRouter
close_listener p none r = r
close_listener p (some vl) r =
    if vl.closed
    then r
    else record r { made = set r.made p (shut vl); closed = close_conns vl.ch r.closed }

abbrev pub unregister_at : Option ℕ → Text → PortRouter → Bool × PortRouter
unregister_at none domain r = (false, r)
unregister_at (some p) domain r =
    let shut_down = close_listener p (get_elem? r.made p) r in
    (true, record shut_down { listeners = erase domain r.listeners })

unfoldable pub unregister : Text → PortRouter → Bool × PortRouter
unregister domain r = unregister_at (lookup domain r.listeners) domain r

abbrev pub close_each : Map Text ℕ → PortRouter → PortRouter
close_each [] r = r
close_each ((d, p) ∷ m) r = close_each m (close_listener p (get_elem? r.made p) r)

unfoldable pub close_all : PortRouter → PortRouter
close_all r = let shut_down = close_each r.listeners r in record shut_down { listeners = [] }

-- The look-up of the host in `handleConn`.
abbrev pub send_to : Option ℕ → Conn → PortRouter → PortRouter
send_to none c r = record r { closed = close_conn c.id r.closed }
send_to (some p) c r = record r { on_way = (c, p) ∷ r.on_way }

abbrev pub after_sniff : ℕ → Option (Text × Reader) → PortRouter → PortRouter
after_sniff id none r = r
after_sniff id (some (host, reader)) r =
    if is_empty host || ltb max_hostname_len (length host)
    then record r { closed = close_conn id r.closed }
    else send_to (lookup host r.listeners) (record { id = id; host = host; reader = reader }) r

-- The rest of `handleConn`, for a connection that is on its way to the listener `vl`.
abbrev pub deliver : Conn → ℕ → Bool × VirtualListener → PortRouter → PortRouter
deliver c p (true, vl) r = record r { made = set r.made p vl }
deliver c p (false, vl) r = record r { made = set r.made p vl; closed = close_conn c.id r.closed }

-- `Accept`: the next connection that waits, if there is one.
abbrev pub accept_ch : ℕ → VirtualListener → List Conn → PortRouter → PortRouter
accept_ch p vl [] r = r
accept_ch p vl (c ∷ cs) r = record r {
  made = set r.made p (record vl { ch = cs });
  accepted = c.id ∷ r.accepted;
}

abbrev pub accept_from : ℕ → Option VirtualListener → PortRouter → PortRouter
accept_from p none r = r
accept_from p (some vl) r = accept_ch p vl vl.ch r

module _ (split_host : Text → Option Text) (read_request : Text → Option Text)
    (hello_name : Text → Text) where
  -- `handleConn` up to the look-up. Of a connection whose deadline cannot be set nothing is read.
  unfoldable pub handle_conn : RoutingMode → ℕ → Reader → PortRouter → PortRouter
  handle_conn mode id reader r =
      after_sniff id (sniff split_host read_request hello_name mode reader) r

  -- What goroutines do, in any order.
  pub data Step (mode : RoutingMode) (r s : PortRouter) : Type 0 where
    registers : (domain : Text) → s ≡ (register domain r).1 → Step mode r s
    unregisters : (domain : Text) → s ≡ (unregister domain r).1 → Step mode r s
    closes_all : s ≡ close_all r → Step mode r s
    -- `Close` by who holds the listener, which stays registered
    closes : (p : ℕ) → s ≡ close_listener p (get_elem? r.made p) r → Step mode r s
    delivers :
        (before after : List (Conn × ℕ)) (c : Conn) (p : ℕ) (vl : VirtualListener)
        → r.on_way ≡ before ++ (c, p) ∷ after
        → get_elem? r.made p ≡ some vl
        → s ≡ deliver c p (dispatch c vl) (record r { on_way = before ++ after })
        → Step mode r s
    accepts : (p : ℕ) → s ≡ accept_from p (get_elem? r.made p) r → Step mode r s

  -- A run, with the connections that came in.
  pub data Reach (mode : RoutingMode) : List ℕ → PortRouter → Type 0 where
    starts : Reach mode [] new_port_router
    arrives :
        (ids : List ℕ) (r : PortRouter) (id : ℕ) (reader : Reader)
        → Reach mode ids r
        → is_in id ids ≡ false
        → Reach mode (id ∷ ids) (handle_conn mode id reader r)
    moves : (ids : List ℕ) (r s : PortRouter) → Reach mode ids r → Step mode r s → Reach mode ids s
