-- ===== src/Access/Forward.antt =====
-- What a proxy port sends on: `proxyRewrite` and `isManagementTarget` of
-- internal/proxymanager/port_http.go, `resolvePeerIP` of ratelimit.go.
use tsdproxy.Common.{
  Bool, true, false, not, ◌&&◌, ◌||◌, List, [], ◌∷◌, ◌++◌, Option, none, some, if◌then◌else◌, Text,
  text_eq, text_Eq,
}
use tsdproxy.Common.Maps.{erase}
use tsdproxy.Strings.{codes, contains}
use tsdproxy.Config.{is_empty}
use tsdproxy.Access.Addresses.{Ip, is_loopback, is_localhost, normalize_ip, holds_of}
use tsdproxy.Access.Headers.{
  Header, values, set_header, set_all, del_all, trusted_proxy_headers, header_id, header_username,
  header_display_name, header_profile_pic_url, header_auth_token, header_remote_user,
  header_x_forwarded_user, header_x_auth_request_user, header_x_forwarded_email,
  header_x_auth_request_email, header_x_forwarded_preferred_username, header_real_ip,
  header_x_forwarded_for,
}

pub record Whois : Type 0 where
  pub id : Text
  pub display_name : Text
  pub username : Text
  pub profile_pic_url : Text

-- An incoming request: `whois` is what its context holds, `tls` whether it has a TLS state.
pub record Request : Type 0 where
  pub remote_addr : Text
  pub host : Text
  pub tls : Bool
  pub headers : Header
  pub whois : Option Whois

-- The parts of a target's URL that are compared.
pub record Target : Type 0 where
  pub hostname : Text
  pub port : Text
  pub path : Text

unfoldable pub is_management_target : Option Target → Text → Bool
is_management_target none http_port = false
is_management_target (some t) http_port =
    if not (text_eq t.hostname (codes "localhost")) && not (text_eq t.hostname (codes "127.0.0.1"))
    then false
    else text_eq t.port http_port && (is_empty t.path || text_eq t.path (codes "/"))

-- The headers of an authenticated user.
abbrev pub identity_of : Whois → List (Text × Text)
identity_of user =
    (header_id, user.id)
    ∷ (header_username, user.username)
    ∷ (header_display_name, user.display_name)
    ∷ (header_profile_pic_url, user.profile_pic_url)
    ∷ (header_remote_user, user.username)
    ∷ (header_x_forwarded_user, user.username)
    ∷ (header_x_auth_request_user, user.username)
    ∷ (header_x_forwarded_email, user.username)
    ∷ (header_x_auth_request_email, user.username)
    ∷ (header_x_forwarded_preferred_username, user.display_name)
    ∷ []

-- What the closure of `proxyRewrite` holds.
pub record Rewriting : Type 0 where
  pub target : Option Target
  pub https : Bool
  pub identity_headers : Bool
  pub http_port : Text
  pub proxy_auth_token : Text

unfoldable pub inject_identity : Rewriting → Option Whois → Header → Header
unfolding is_management_target
inject_identity p none out = out
inject_identity p (some user) out =
    if is_empty user.id
    then out
    else let named = set_all (identity_of user) out in
      if is_management_target p.target p.http_port
      then set_header header_auth_token p.proxy_auth_token named
      else named

-- `strings.Join` with ", ", and what is appended behind it.
abbrev pub joined : List Text → Text → Text
joined [] last = last
joined (v ∷ vs) last = v ++ codes ", " ++ joined vs last

abbrev pub proto_of : Bool → Text
proto_of true = codes "https"
proto_of false = codes "http"

module _ (split_host : Text → Option Text) (parse_ip : Text → Option Ip) where
  unfoldable pub peer_of_values : List Text → Text
  peer_of_values [] = []
  peer_of_values (v ∷ w ∷ vs) = []
  peer_of_values (v ∷ []) =
      if contains (codes ",") v
      then []
      else let ip = normalize_ip split_host parse_ip v in
        if holds_of is_loopback (parse_ip ip) then [] else ip

  unfoldable pub resolve_peer_ip : Request → Text
  unfolding peer_of_values
  resolve_peer_ip r =
      if not (is_localhost split_host parse_ip r.remote_addr)
      then normalize_ip split_host parse_ip r.remote_addr
      else peer_of_values (values header_x_forwarded_for r.headers)

  abbrev pub forwarded_for : Option Text → Header → Header
  forwarded_for none out = erase header_x_forwarded_for out
  forwarded_for (some ip) out =
      set_header header_x_forwarded_for (joined (values header_x_forwarded_for out) ip) out

  -- `httputil.ProxyRequest.SetXForwarded`
  unfoldable pub set_x_forwarded : Request → Header → Header
  set_x_forwarded r out =
      set_header (codes "x-forwarded-proto") (proto_of r.tls) (
        set_header (codes "x-forwarded-host") r.host (forwarded_for (split_host r.remote_addr) out))

  unfoldable pub set_peer : Text → Header → Header
  set_peer ip out =
      if is_empty ip
      then out
      else set_header header_x_forwarded_for ip (set_header header_real_ip ip out)

  unfoldable pub set_proto : Bool → Header → Header
  set_proto https out =
      if https then set_header (codes "x-forwarded-proto") (proto_of true) out else out

  -- The headers of the outgoing request, from those that the reverse proxy copied.
  unfoldable pub proxy_rewrite : Rewriting → Request → Header → Header
  unfolding inject_identity set_x_forwarded set_peer set_proto resolve_peer_ip
  proxy_rewrite p r out =
      let clean = del_all trusted_proxy_headers out in
      let named = if p.identity_headers then inject_identity p r.whois clean else clean in
      set_proto p.https (set_peer (resolve_peer_ip r) (set_x_forwarded r named))
