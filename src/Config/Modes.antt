-- ===== src/Config/Modes.antt =====
-- The checks of a proxy's own configuration: internal/model/proxyconfig.go.
use tsdproxy.Common.{
  ◌≡◌, ◌↔◌, Bool, true, false, not, ◌&&◌, [], ◌∷◌, arith, if◌then◌else◌, Text, text_eq, text_eq_iff,
  Result, ok, err, ◌>>◌, guard,
}
use tsdproxy.Common.Maps.{Map, Each}
use tsdproxy.Strings.{codes}
use tsdproxy.Port.Defs.{PortConfig, proto_https, proto_udp}
use tsdproxy.Config.{is_empty}

-- The part of `Config` that the checks read.
pub record ProxyConfig : Type 0 where
  pub ports : Map Text PortConfig
  pub domain : Text

pub data ModeError : Type 0 where
  funnel_without_https : Text → Text → ModeError
  services_with_domain : ModeError
  services_with_udp : Text → ModeError
  shared_without_domain : ModeError

abbrev pub mode_shared : Text
mode_shared = codes "shared"

abbrev pub mode_services : Text
mode_services = codes "services"

unfoldable pub validate_ports : Map Text PortConfig → Result ModeError (Unit {0})
validate_ports [] = ok tt
validate_ports ((k, c) ∷ m) =
    guard (not (c.funnel && not (text_eq c.proxy_protocol proto_https)))
      (funnel_without_https k c.proxy_protocol)
    >> validate_ports m

unfoldable pub validate_proxy_ports : ProxyConfig → Result ModeError (Unit {0})
validate_proxy_ports cfg = validate_ports cfg.ports

-- The loop of the services mode.
unfoldable pub refuse_udp : Map Text PortConfig → Result ModeError (Unit {0})
refuse_udp [] = ok tt
refuse_udp ((k, c) ∷ m) =
    guard (not (text_eq c.proxy_protocol proto_udp)) (services_with_udp k) >> refuse_udp m

-- The switch on the mode.
unfoldable pub check_mode : ProxyConfig → Text → Result ModeError (Unit {0})
check_mode cfg mode =
    if text_eq mode mode_services
    then guard (is_empty cfg.domain) services_with_domain >> refuse_udp cfg.ports
    else if text_eq mode mode_shared
    then guard (not (is_empty cfg.domain)) shared_without_domain
    else ok tt

unfoldable pub validate_proxy_config_for_mode : ProxyConfig → Text → Result ModeError (Unit {0})
validate_proxy_config_for_mode cfg mode = check_mode cfg mode >> validate_proxy_ports cfg

-- What a mode asks of a proxy's configuration.
pub record IsFit (mode : Text) (cfg : ProxyConfig) : Type 0 where
  pub funnel : Each (λ k c. c.funnel ≡ true → text_eq c.proxy_protocol proto_https ≡ true) cfg.ports
  pub services :
      mode ≡ mode_services
      → (is_empty cfg.domain ≡ true)
        × Each (λ k c. text_eq c.proxy_protocol proto_udp ≡ false) cfg.ports
  pub shared : mode ≡ mode_shared → is_empty cfg.domain ≡ false

>>-ok : (m k : Result ModeError (Unit {0})) → ((m >> k) ≡ ok tt) ↔ ((m ≡ ok tt) × (k ≡ ok tt))
>>-ok (ok tt) k = ground arith
>>-ok (err e) k = ground arith

guard-ok : (b : Bool) (e : ModeError) → (guard b e ≡ ok tt) ↔ (b ≡ true)
guard-ok true e = ground arith
guard-ok false e = ground arith

ports_lem :
    (m : Map Text PortConfig)
    → (validate_ports m ≡ ok tt)
      ↔ Each (λ k c. c.funnel ≡ true → text_eq c.proxy_protocol proto_https ≡ true) m
unfolding validate_ports
ports_lem [] = ground arith
ports_lem ((k, c) ∷ m) =
    let b = not (c.funnel && not (text_eq c.proxy_protocol proto_https)) in
    let e = funnel_without_https k c.proxy_protocol in
    ground (arith, >>-ok (guard b e) (validate_ports m), guard-ok b e, ports_lem m)

udp_lem :
    (m : Map Text PortConfig)
    → (refuse_udp m ≡ ok tt) ↔ Each (λ k c. text_eq c.proxy_protocol proto_udp ≡ false) m
unfolding refuse_udp
udp_lem [] = ground arith
udp_lem ((k, c) ∷ m) =
    let b = not (text_eq c.proxy_protocol proto_udp) in
    ground (
      arith,
      >>-ok (guard b (services_with_udp k)) (refuse_udp m),
      guard-ok b (services_with_udp k),
      udp_lem m,
    )

check_mode_lem :
    (cfg : ProxyConfig) (mode : Text)
    → (check_mode cfg mode ≡ ok tt) ↔ (
        (mode ≡ mode_services
          → (is_empty cfg.domain ≡ true)
            × Each (λ k c. text_eq c.proxy_protocol proto_udp ≡ false) cfg.ports)
        × (mode ≡ mode_shared → is_empty cfg.domain ≡ false))
unfolding check_mode
check_mode_lem cfg mode = ground (
  arith,
  text_eq_iff mode mode_services,
  text_eq_iff mode mode_shared,
  >>-ok (guard (is_empty cfg.domain) services_with_domain) (refuse_udp cfg.ports),
  udp_lem cfg.ports,
  guard-ok (is_empty cfg.domain) services_with_domain,
  guard-ok (not (is_empty cfg.domain)) shared_without_domain,
)

-- The check for a mode passes exactly the configurations that fit it: funnel ports speak HTTPS, the
-- services mode has no domain and no UDP port, the shared mode has a domain; any other mode asks for no
-- more than the first.
pub validate_proxy_config_for_mode_lem :
    (cfg : ProxyConfig) (mode : Text)
    → (validate_proxy_config_for_mode cfg mode ≡ ok tt) ↔ IsFit mode cfg
unfolding validate_proxy_config_for_mode validate_proxy_ports
validate_proxy_config_for_mode_lem cfg mode =
    let split = >>-ok (check_mode cfg mode) (validate_ports cfg.ports) in
    (
      (λ h.
          let (first, rest) = split.0 h in
          let (s, w) = (check_mode_lem cfg mode).0 first in
          record { funnel = (ports_lem cfg.ports).0 rest; services = s; shared = w }),
      (λ v.
          split.1
            ((check_mode_lem cfg mode).1 (v.services, v.shared), (ports_lem cfg.ports).1 v.funnel)),
    )
