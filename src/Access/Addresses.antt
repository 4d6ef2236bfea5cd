-- ===== src/Access/Addresses.antt =====
-- The address of a client: `IsLocalhost` and `NormalizeIP` of internal/model/whois.go, `IsTrustedSource`
-- and `isCGNAT` of internal/core/admin.go.
use tsdproxy.Common.{
  ℕ, ◌/◌, Bool, false, ◌&&◌, ◌||◌, List, [], ◌∷◌, Option, none, some, ◌==◌, Text, text_eq,
}
use tsdproxy.Strings.{trim_space}

-- `net.IP`: four bytes, also for the mapped addresses of IPv6, or the sixteen of any other.
pub data Ip : Type 0 where
  v4 : ℕ → ℕ → ℕ → ℕ → Ip
  v6 : List ℕ → Ip

abbrev v6_loopback : List ℕ
v6_loopback = 0 ∷ 0 ∷ 0 ∷ 0 ∷ 0 ∷ 0 ∷ 0 ∷ 0 ∷ 0 ∷ 0 ∷ 0 ∷ 0 ∷ 0 ∷ 0 ∷ 0 ∷ 1 ∷ []

-- `net.IP.IsLoopback`
unfoldable pub is_loopback : Ip → Bool
is_loopback (v4 a b c d) = a == 127
is_loopback (v6 bytes) = text_eq bytes v6_loopback

-- `net.IP.IsPrivate`
unfoldable pub is_private : Ip → Bool
is_private (v4 a b c d) = a == 10 || (a == 172 && b / 16 == 1) || (a == 192 && b == 168)
is_private (v6 []) = false
is_private (v6 (a ∷ bytes)) = a / 2 == 126

unfoldable pub is_cgnat : Ip → Bool
is_cgnat (v4 a b c d) = a == 100 && b / 64 == 1
is_cgnat (v6 bytes) = false

abbrev pub or_text : Option Text → Text → Text
or_text none t = t
or_text (some s) t = s

abbrev pub holds_of {ℓ} : {A : Type ℓ} → (A → Bool) → Option A → Bool
holds_of f none = false
holds_of f (some a) = f a

-- The host of `net.SplitHostPort`, none on an error, and `net.ParseIP`.
module _ (split_host : Text → Option Text) (parse_ip : Text → Option Ip) where
  abbrev pub ip_of_addr : Text → Option Ip
  ip_of_addr addr = parse_ip (or_text (split_host addr) addr)

  unfoldable pub is_localhost : Text → Bool
  is_localhost remote_addr = holds_of is_loopback (ip_of_addr remote_addr)

  unfoldable pub is_trusted_source : Text → Bool
  unfolding is_loopback is_private is_cgnat
  is_trusted_source remote_addr =
      holds_of (λ ip. is_loopback ip || is_cgnat ip || is_private ip) (ip_of_addr remote_addr)

  -- The address itself where it parses, else nothing.
  abbrev pub if_ip : Text → Option Ip → Text
  if_ip addr none = []
  if_ip addr (some ip) = addr

  unfoldable pub normalize_split : Text → Option Text → Text
  normalize_split addr none = if_ip addr (parse_ip addr)
  normalize_split addr (some host) = if_ip host (parse_ip host)

  unfoldable pub normalize_ip : Text → Text
  unfolding normalize_split
  normalize_ip addr = let t = trim_space addr in normalize_split t (split_host t)
