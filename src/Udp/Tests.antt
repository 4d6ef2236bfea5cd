-- ===== src/Udp/Tests.antt =====
-- One client of a UDP port, and the theorems applied there.
use tsdproxy.Common.{ℕ, ◌≡◌, refl, Bool, true, false, [], ◌∷◌, none, arith, Text, text_Eq}
use tsdproxy.Common.Maps.{lookup, insert}
use tsdproxy.Strings.{codes}
use tsdproxy.Udp.{
  ClientEntry, UdpPort, new_port_udp, dial, install, evict_oldest_client, close_all_clients,
  close_each, close_socket, dials, installs, ends, Reach, starts, moves,
}
use tsdproxy.Udp.Eviction.{IsEvicted, evict_oldest_client-IsEvicted}
use tsdproxy.Udp.Sockets.{IsTidy}
use tsdproxy.Udp.Tracking.{Reach-IsTidy}

abbrev client : Text
client = codes "10.0.0.1:53"

-- A limiter that lets everything pass.
abbrev always : ℕ → ℕ → Bool × ℕ
always l now = (true, l)

abbrev dialling : UdpPort ℕ
dialling = dial always 0 client new_port_udp

abbrev serving : UdpPort ℕ
serving = record (install always 0 client 0 5 dialling).1 { dialled = none }

abbrev stopped : UdpPort ℕ
stopped = record (close_all_clients serving) { ended = true }

reached : Reach always 0 stopped
unfolding new_port_udp dial install lookup insert
reached =
    moves serving stopped
      (moves dialling serving
        (moves new_port_udp dialling starts (dials client refl refl refl refl))
        (installs client 0 5 refl refl refl))
      (ends refl refl)

-- The socket that was dialled is closed in the end.
closes_socket : stopped.sockets ≡ []
unfolding new_port_udp dial install lookup insert close_all_clients close_each close_socket
closes_socket = refl

Reach-IsTidy_example : IsTidy stopped
Reach-IsTidy_example = Reach-IsTidy always 0 stopped reached

abbrev entry : ℕ → ℕ → ClientEntry ℕ
entry conn seen = record { conn = conn; last_seen = seen; limiter = 0 }

abbrev two_clients : UdpPort ℕ
two_clients = record {
  client_map = (codes "a", entry 0 9) ∷ (codes "b", entry 1 4) ∷ [];
  sockets = 0 ∷ 1 ∷ [];
  dialled = none;
  next = 2;
  canceled = false;
  ended = false;
}

evict_oldest_client-IsEvicted_example : IsEvicted two_clients (evict_oldest_client two_clients)
unfolding lookup
evict_oldest_client-IsEvicted_example =
    evict_oldest_client-IsEvicted two_clients (refl, (refl, tt)) (refl, (refl, tt)) (omega arith)
