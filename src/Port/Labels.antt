-- ===== src/Port/Labels.antt =====
-- What a port label that is accepted means.
use tsdproxy.Common.{
  inl, inr, ◌≤◌, ◌≡◌, ◌≢◌, refl, ◌⊎◌, Bool, true, false, List, [], ◌∷◌, Option, some, arith,
  if◌then◌else◌, Text, text_eq, text_eq_iff, ok, Ensures, or_fail, wrap, >>=-eq-ok,
}
use tsdproxy.Strings.{split, contains}
use tsdproxy.Port.Defs.{
  Url, PortConfig, proto_http, proto_https, redirect_separator, parse_port, invalid_target_port,
  invalid_target_url, default_port_config, is_protocol, proxy_parts, parse_proxy_segment,
  detect_separator, target_url, target_with, target_parts, parse_target_segment, redirect_to,
  parse_redirect_target, long_label_parts, new_port_long_label, new_port_short_label,
}

pub parse_port_bounds : (s : Text) → Ensures (λ n. (1 ≤ n) × (n ≤ 65535)) (parse_port s)
unfolding parse_port
parse_port_bounds s = ground arith

-- A configuration that differs from `c` in its port and its protocol, which are valid ones.
pub record IsProxy (c c' : PortConfig) : Type 0 where
  pub port_pos : 1 ≤ c'.proxy_port
  pub port_le : c'.proxy_port ≤ 65535
  pub protocol : is_protocol c'.proxy_protocol ≡ true
  pub targets : c'.targets ≡ c.targets
  pub name : c'.name ≡ c.name
  pub tls_validate : c'.tls_validate ≡ c.tls_validate
  pub no_auto_detect : c'.no_auto_detect ≡ c.no_auto_detect
  pub is_redirect : c'.is_redirect ≡ c.is_redirect
  pub funnel : c'.funnel ≡ c.funnel

proxy_parts_sound :
    (parts : List Text) (c c' : PortConfig)
    → is_protocol c.proxy_protocol ≡ true
    → proxy_parts parts c ≡ ok c'
    → IsProxy c c'
unfolding proxy_parts
proxy_parts_sound [] c c' p h = cc
proxy_parts_sound (s ∷ []) c c' p h = ground (arith, parse_port_bounds s)
proxy_parts_sound (s ∷ q ∷ []) c c' p h = ground (arith, parse_port_bounds s)
proxy_parts_sound (s ∷ q ∷ r ∷ rest) c c' p h = cc

default_protocol : (s : Text) → is_protocol (default_port_config s).proxy_protocol ≡ true
unfolding is_protocol default_port_config
default_protocol s = refl

-- A short label that is accepted has a port between 1 and 65535 and one of the four protocols, is
-- named by the label, has no target and leaves every option at its default.
pub new_port_short_label_sound :
    (s : Text) (c : PortConfig) → new_port_short_label s ≡ ok c → IsProxy (default_port_config s) c
unfolding new_port_short_label
new_port_short_label_sound s c h = proxy_parts_sound (split s _) _ c (default_protocol s) h

-- The one target of a port, which is an http or https URL with a host if the port redirects.
pub record HasTarget (u : Url) (c : PortConfig) : Type 0 where
  pub targets : c.targets ≡ some (u ∷ [])
  pub scheme :
      (c.is_redirect ≡ false)
      ⊎ ((u.host ≢ []) × ((u.scheme ≡ proto_http) ⊎ (u.scheme ≡ proto_https)))

-- What the parsing of the target segment adds to a configuration.
pub record IsLabel (s : Text) (redirect : Bool) (c : PortConfig) : Type 0 where
  pub port_pos : 1 ≤ c.proxy_port
  pub port_le : c.proxy_port ≤ 65535
  pub protocol : is_protocol c.proxy_protocol ≡ true
  pub name : c.name ≡ s
  pub tls_validate : c.tls_validate ≡ true
  pub no_auto_detect : c.no_auto_detect ≡ false
  pub funnel : c.funnel ≡ false
  pub is_redirect : c.is_redirect ≡ redirect
  pub target : (u : Url) × HasTarget u c

module _ (parse_url : Text → Option Url) where
  target_with_sound :
      (protocol p : Text) (c c' : PortConfig)
      → target_with parse_url protocol p c ≡ ok c'
      → (u : Url) × (c' ≡ record c { targets = some (u ∷ []) })
  unfolding target_with
  target_with_sound protocol p c c' h =
      let (n, _, after_port) = >>=-eq-ok (wrap invalid_target_port (parse_port p)) _ h in
      let (u, _, done) = >>=-eq-ok (target_url parse_url protocol p) _ after_port in
      (u, ground arith)

  redirect_to_sound :
      (u : Url) (segment : Text) (c c' : PortConfig)
      → c.targets ≡ some []
      → redirect_to parse_url u segment c ≡ ok c'
      → (c' ≡ record c { targets = some (u ∷ []) })
        × (u.host ≢ [])
        × ((u.scheme ≡ proto_http) ⊎ (u.scheme ≡ proto_https))
  unfolding redirect_to
  redirect_to_sound u segment c c' e h = ground (
    arith,
    text_eq_iff u.scheme proto_http,
    text_eq_iff u.scheme proto_https,
    text_eq_iff u.host [],
  )

  target_parts_sound :
      (parts : List Text) (c c' : PortConfig)
      → target_parts parse_url parts c ≡ ok c'
      → (u : Url) × (c' ≡ record c { targets = some (u ∷ []) })
  unfolding target_parts
  target_parts_sound [] c c' h = cc
  target_parts_sound (p ∷ []) c c' h = target_with_sound _ p c c' h
  target_parts_sound (p ∷ q ∷ []) c c' h = target_with_sound q p c c' h
  target_parts_sound (p ∷ q ∷ r ∷ rest) c c' h = cc

  redirect_sound :
      (s segment : Text) (c c' : PortConfig)
      → IsProxy (default_port_config s) c
      → parse_redirect_target parse_url segment (record c { is_redirect = true }) ≡ ok c'
      → IsLabel s true c'
  unfolding parse_redirect_target default_port_config
  redirect_sound s segment c c' v h =
      let (u, _, done) = >>=-eq-ok (or_fail (parse_url segment) (invalid_target_url segment)) _ h in
      let (same, host, scheme) = redirect_to_sound u segment _ c' v.targets done in
      rw same (record {
        port_pos = v.port_pos;
        port_le = v.port_le;
        protocol = v.protocol;
        name = v.name;
        tls_validate = v.tls_validate;
        no_auto_detect = v.no_auto_detect;
        funnel = v.funnel;
        is_redirect = refl;
        target = (u, record { targets = refl; scheme = inr (host, scheme) });
      })

  target_sound :
      (s segment : Text) (c c' : PortConfig)
      → IsProxy (default_port_config s) c
      → parse_target_segment parse_url segment c ≡ ok c'
      → IsLabel s false c'
  unfolding parse_target_segment default_port_config
  target_sound s segment c c' v h =
      let (u, same) = target_parts_sound (split segment _) c c' h in
      rw same (record {
        port_pos = v.port_pos;
        port_le = v.port_le;
        protocol = v.protocol;
        name = v.name;
        tls_validate = v.tls_validate;
        no_auto_detect = v.no_auto_detect;
        funnel = v.funnel;
        is_redirect = v.is_redirect;
        target = (u, record { targets = refl; scheme = inl v.is_redirect });
      })

  branch_sound :
      (s target : Text) (redirect : Bool) (c c' : PortConfig)
      → IsProxy (default_port_config s) c
      → (if redirect
          then parse_redirect_target parse_url target (record c { is_redirect = true })
          else parse_target_segment parse_url target c)
        ≡ ok c'
      → IsLabel s redirect c'
  branch_sound s target true c c' v h = redirect_sound s target c c' v h
  branch_sound s target false c c' v h = target_sound s target c c' v h

  long_label_parts_sound :
      (s separator : Text) (parts : List Text) (c : PortConfig)
      → long_label_parts parse_url separator parts (default_port_config s) ≡ ok c
      → IsLabel s (text_eq separator redirect_separator) c
  unfolding long_label_parts parse_proxy_segment
  long_label_parts_sound s separator (proxy ∷ target ∷ []) c h =
      let (c', accepted, after) =
        >>=-eq-ok (parse_proxy_segment proxy (default_port_config s)) _ h in
      branch_sound s target (text_eq separator redirect_separator) c' c
        (proxy_parts_sound (split proxy _) _ c' (default_protocol s) accepted) after
  long_label_parts_sound s separator [] c h = cc
  long_label_parts_sound s separator (p ∷ []) c h = cc
  long_label_parts_sound s separator (p ∷ q ∷ r ∷ rest) c h = cc

  separator_redirects :
      (s : Text) → text_eq (detect_separator s) redirect_separator ≡ contains redirect_separator s
  unfolding detect_separator
  separator_redirects s = ground arith

  -- A long label that is accepted has a port between 1 and 65535 and one of the four protocols, is
  -- named by the label, has all options at their defaults, redirects exactly if the label contains
  -- "->", and has exactly one target, which for a redirect is an http or https URL with a host.
  pub new_port_long_label_sound :
      (s : Text) (c : PortConfig)
      → new_port_long_label parse_url s ≡ ok c
      → IsLabel s (contains redirect_separator s) c
  unfolding new_port_long_label
  new_port_long_label_sound s c h =
      rw (← separator_redirects s) (long_label_parts_sound s (detect_separator s) _ c h)
