-- ===== src/Access/Networks.antt =====
-- The trusted networks as intervals of addresses.
use tsdproxy.Common.{ℕ, ◌+◌, ◌*◌, ◌≤◌, ◌<◌, ◌≡◌, ◌↔◌, ◌⊎◌, true, Option, some, arith, Text}
use tsdproxy.Access.Addresses.{
  Ip, v4, is_loopback, is_private, is_cgnat, is_trusted_source, ip_of_addr,
}

-- An address of IPv4 as a number of 32 bits.
abbrev pub number_of : ℕ → ℕ → ℕ → ℕ → ℕ
number_of a b c d = ((a * 256 + b) * 256 + c) * 256 + d

abbrev pub Between : ℕ → ℕ → ℕ → Type 0
Between lo hi n = (lo ≤ n) × (n ≤ hi)

-- 127.0.0.0/8, 10.0.0.0/8, 172.16.0.0/12, 192.168.0.0/16 or 100.64.0.0/10
abbrev pub IsTrusted : ℕ → Type 0
IsTrusted n =
    Between (number_of 127 0 0 0) (number_of 127 255 255 255) n
    ⊎ Between (number_of 10 0 0 0) (number_of 10 255 255 255) n
    ⊎ Between (number_of 172 16 0 0) (number_of 172 31 255 255) n
    ⊎ Between (number_of 192 168 0 0) (number_of 192 168 255 255) n
    ⊎ Between (number_of 100 64 0 0) (number_of 100 127 255 255) n

-- A client with an IPv4 address is trusted exactly if the address lies in the loopback network, in one of
-- the three private ones, or in the network of carrier-grade translation.
pub is_trusted_source_v4 :
    (split_host : Text → Option Text) (parse_ip : Text → Option Ip) (addr : Text) (a b c d : ℕ)
    → ip_of_addr split_host parse_ip addr ≡ some (v4 a b c d)
    → (a < 256) × (b < 256) × (c < 256) × (d < 256)
    → (is_trusted_source split_host parse_ip addr ≡ true) ↔ IsTrusted (number_of a b c d)
unfolding is_trusted_source is_loopback is_private is_cgnat
is_trusted_source_v4 split_host parse_ip addr a b c d e bytes = rw e (ground arith)
