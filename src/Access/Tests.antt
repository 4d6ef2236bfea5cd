-- ===== src/Access/Tests.antt =====
-- A user, a stranger and the management server, and the theorems applied there.
use tsdproxy.Common.{
  sym, ap, ◌∙◌, ◌≡◌, ◌≢◌, ◌↔◌, refl, true, false, [], ◌∷◌, Option, none, some, arith, if◌then◌else◌,
  Text, text_eq, text_Eq,
}
use tsdproxy.Strings.{codes}
use tsdproxy.Config.{is_empty}
use tsdproxy.Access.Addresses.{Ip, v4, is_loopback, is_localhost, is_trusted_source}
use tsdproxy.Access.Headers.{Header, get, header_id, header_auth_token}
use tsdproxy.Access.Forward.{Whois, Request, Rewriting, is_management_target, proxy_rewrite}
use tsdproxy.Access.Admin.{
  AccessConfig, no_one, serves, resolve_whois, admin_middleware, is_admin,
  strip_proxy_identity_headers,
}
use tsdproxy.Access.Networks.{is_trusted_source_v4, IsTrusted, number_of}
use tsdproxy.Access.Roles.{admin_middleware-is_admin}
use tsdproxy.Access.Agreement.{Agree, proxy_rewrite-Agree}
use tsdproxy.Access.Spoofing.{strip-proxy_rewrite, strip-stranger}

-- Two addresses that have no port.
abbrev here : Text
here = codes "127.0.0.1"

abbrev away : Text
away = codes "100.64.0.7"

unfoldable split_none : Text → Option Text
split_none a = none

unfoldable parse_two : Text → Option Ip
parse_two a =
    if text_eq a here
    then some (v4 127 0 0 1)
    else if text_eq a away
    then some (v4 100 64 0 7)
    else none

abbrev alice : Whois
alice = record {
  id = codes "u1";
  display_name = codes "Alice";
  username = codes "alice";
  profile_pic_url = [];
}

abbrev cfg : AccessConfig
cfg = record { admins = codes "u1" ∷ []; api_key = []; admin_allow_localhost = false }

abbrev from_alice : Request
from_alice = record {
  remote_addr = away;
  host = codes "dash";
  tls = true;
  headers = [];
  whois = some alice;
}

-- A client claims to be another user, and to have the token.
abbrev forged : Header
forged = (header_id, codes "root" ∷ []) ∷ (header_auth_token, codes "guess" ∷ []) ∷ []

abbrev port : Rewriting
port = record {
  target = some (record { hostname = codes "127.0.0.1"; port = codes "8080"; path = [] });
  https = true;
  identity_headers = true;
  http_port = codes "8080";
  proxy_auth_token = codes "secret";
}

abbrev arrived : Request
arrived = record {
  remote_addr = here;
  host = codes "dash";
  tls = false;
  headers = proxy_rewrite split_none parse_two port from_alice forged;
  whois = none;
}

alice_is_someone : alice ≢ no_one
alice_is_someone h = ground (arith, ap (λ w. w.id) h)

is_trusted_source_v4_example :
    (is_trusted_source split_none parse_two away ≡ true) ↔ IsTrusted (number_of 100 64 0 7)
unfolding parse_two split_none
is_trusted_source_v4_example =
    is_trusted_source_v4 split_none parse_two away 100 64 0 7 refl (omega arith)

admin_middleware-is_admin_example :
    (admin_middleware split_none parse_two cfg from_alice ≡ serves)
    ↔ (is_admin split_none parse_two cfg from_alice ≡ true)
unfolding resolve_whois
admin_middleware-is_admin_example =
    admin_middleware-is_admin split_none parse_two cfg from_alice (ground arith)

proxy_rewrite-Agree_example :
    Agree header_id
      (proxy_rewrite split_none parse_two port from_alice forged)
      (proxy_rewrite split_none parse_two port from_alice [])
proxy_rewrite-Agree_example =
    proxy_rewrite-Agree split_none parse_two port from_alice header_id forged [] refl

strip-proxy_rewrite_example :
    resolve_whois (strip_proxy_identity_headers split_none parse_two (codes "secret") arrived)
    ≡ alice
unfolding resolve_whois is_management_target is_localhost is_loopback split_none parse_two
strip-proxy_rewrite_example =
    strip-proxy_rewrite split_none parse_two port from_alice forged arrived refl refl refl refl refl

strip-stranger_example :
    (is_localhost split_none parse_two here ≡ true)
    × (is_empty (codes "secret") ≡ false)
    × (get header_auth_token arrived.headers ≡ codes "secret")
unfolding resolve_whois is_management_target is_localhost is_loopback split_none parse_two
strip-stranger_example = strip-stranger split_none parse_two (codes "secret") arrived (λ same.
    alice_is_someone (
      sym (
        strip-proxy_rewrite split_none parse_two port from_alice forged arrived refl refl refl refl
          refl)
      ∙ same))
