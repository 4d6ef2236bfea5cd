-- ===== src/Access/Spoofing.antt =====
-- What a client can make a target or the dashboard believe of it: internal/core/admin.go and the rewriting of
-- internal/proxymanager/port_http.go together.
use tsdproxy.Common.{
  ◌≡◌, ◌≢◌, refl, sym, ap, ◌∙◌, Bool, true, false, List, [], ◌∷◌, Option, none, some, arith,
  if◌then◌else◌, Text, text_eq, text_eq_iff, text_Eq,
}
use tsdproxy.Common.Maps.{lookup, erase, lookup-erase, lookup-insert}
use tsdproxy.Config.{is_empty}
use tsdproxy.Access.Addresses.{Ip, is_localhost}
use tsdproxy.Access.Headers.{
  Header, values, get, values_of, first_value, set_header, set_all, del_all, trusted_proxy_headers,
  identity_headers, header_id, header_username, header_display_name, header_profile_pic_url,
  header_auth_token,
}
use tsdproxy.Access.Forward.{
  Whois, Request, Rewriting, identity_of, inject_identity, is_management_target, proxy_rewrite,
}
use tsdproxy.Access.Admin.{
  is_among, valid_token, whois_or, whois_of_headers, strip_proxy_identity_headers, resolve_whois,
}
use tsdproxy.Access.Agreement.{
  lookup-del_all, behind, set_value, lookup-set_all, lookup-proxy_rewrite,
}

-- The first value of a header, from what the map has.
get-Agree :
    (k : Text) (h : Header) (v : Option (List Text))
    → lookup k h ≡ v
    → get k h ≡ first_value (values_of v)
unfolding get values
get-Agree k h v e = ap (λ w. first_value (values_of w)) e

-- An authenticated user and a port that names its users to the management server.
module _ (p : Rewriting) (user : Whois) (n : is_empty user.id ≡ false)
    (to : is_management_target p.target p.http_port ≡ true) where
  lookup-inject_identity :
      (k : Text)
      → lookup k (inject_identity p (some user) []) ≡ (
          if text_eq header_auth_token k
          then some (p.proxy_auth_token ∷ [])
          else set_value k (identity_of user) none)
  unfolding inject_identity set_header lookup
  lookup-inject_identity k =
      let named = set_all (identity_of user) [] in
      let token = lookup-insert header_auth_token k (p.proxy_auth_token ∷ []) named in
      ground (arith, n, to, token, lookup-set_all k (identity_of user) [])

  module _ (split_host : Text → Option Text) (parse_ip : Text → Option Ip)
      (on : p.identity_headers ≡ true) (r : Request) (w : r.whois ≡ some user) (out : Header) where
    get-proxy_rewrite :
        (k : Text)
        → is_among k behind ≡ false
        → is_among k trusted_proxy_headers ≡ true
        → get k (proxy_rewrite split_host parse_ip p r out)
          ≡ first_value (
              values_of (
                if text_eq header_auth_token k
                then some (p.proxy_auth_token ∷ [])
                else set_value k (identity_of user) none))
    get-proxy_rewrite k e m =
        get-Agree k (proxy_rewrite split_host parse_ip p r out)
          (if text_eq header_auth_token k
            then some (p.proxy_auth_token ∷ [])
            else set_value k (identity_of user) none)
          (lookup-proxy_rewrite split_host parse_ip p r k out e m
            ∙ ground (arith, on, w, lookup-inject_identity k))

    whois_of_headers-proxy_rewrite :
        whois_of_headers split_host parse_ip (proxy_rewrite split_host parse_ip p r out) ≡ user
    whois_of_headers-proxy_rewrite =
        rw
          (
            get-proxy_rewrite header_id refl refl,
            get-proxy_rewrite header_username refl refl,
            get-proxy_rewrite header_display_name refl refl,
            get-proxy_rewrite header_profile_pic_url refl refl,
          )
          refl

get-erase : (j k : Text) (h : Header) → text_eq j k ≡ false → get k (erase j h) ≡ get k h
get-erase j k h e =
    get-Agree k (erase j h) (lookup k h)
      (lookup-erase j k h ∙ ap (λ b. if b then none else lookup k h) e)
    ∙ sym (get-Agree k h (lookup k h) refl)

inject_identity-nobody :
    (p : Rewriting) (w : Option Whois) (h : Header)
    → is_empty (whois_or w).id ≡ true
    → inject_identity p w h ≡ h
unfolding inject_identity
inject_identity-nobody p none h e = refl
inject_identity-nobody p (some user) h e = ground (arith, e)

module _ (split_host : Text → Option Text) (parse_ip : Text → Option Ip) where
  whois_of_headers-erase :
      (h : Header)
      → whois_of_headers split_host parse_ip (erase header_auth_token h)
        ≡ whois_of_headers split_host parse_ip h
  whois_of_headers-erase h =
      rw
        (
          get-erase header_auth_token header_id h refl,
          get-erase header_auth_token header_username h refl,
          get-erase header_auth_token header_display_name h refl,
          get-erase header_auth_token header_profile_pic_url h refl,
        )
        refl

  -- Without an authenticated user the proxy names nobody.
  get-proxy_rewrite-nobody :
      (p : Rewriting) (r : Request) (out : Header)
      → is_empty (whois_or r.whois).id ≡ true
      → get header_id (proxy_rewrite split_host parse_ip p r out) ≡ []
  unfolding lookup
  get-proxy_rewrite-nobody p r out h = get-Agree header_id _ none (
      lookup-proxy_rewrite split_host parse_ip p r header_id out refl refl
      ∙ ground (arith, ap (lookup header_id) (inject_identity-nobody p r.whois [] h)))

  -- What the headers of a forwarded request say.
  data Says (p : Rewriting) (w : Option Whois) (h : Header) : Type 0 where
    nobody : is_empty (whois_or w).id ≡ true → get header_id h ≡ [] → Says p w h
    someone :
        is_empty (whois_or w).id ≡ false
        → whois_of_headers split_host parse_ip h ≡ whois_or w
        → get header_auth_token h ≡ p.proxy_auth_token
        → Says p w h

  proxy_rewrite-Says :
      (p : Rewriting) (r : Request) (out : Header)
      → p.identity_headers ≡ true
      → is_management_target p.target p.http_port ≡ true
      → (w : Option Whois) → r.whois ≡ w
      → (b : Bool) → is_empty (whois_or w).id ≡ b
      → Says p w (proxy_rewrite split_host parse_ip p r out)
  proxy_rewrite-Says p r out on to w e true n =
      nobody n (get-proxy_rewrite-nobody p r out (ap (λ v. is_empty (whois_or v).id) e ∙ n))
  proxy_rewrite-Says p r out on to none e false n = cc
  proxy_rewrite-Says p r out on to (some user) e false n =
      someone n (whois_of_headers-proxy_rewrite p user n to split_host parse_ip on r e out)
        (get-proxy_rewrite p user n to split_host parse_ip on r e out header_auth_token refl refl)

  strip-Says :
      (p : Rewriting) (w : Option Whois) (arrived : Request)
      → is_empty p.proxy_auth_token ≡ false
      → is_localhost split_host parse_ip arrived.remote_addr ≡ true
      → Says p w arrived.headers
      → resolve_whois (strip_proxy_identity_headers split_host parse_ip p.proxy_auth_token arrived)
        ≡ (if is_empty (whois_or w).id then resolve_whois arrived else whois_or w)
  unfolding strip_proxy_identity_headers resolve_whois valid_token
  strip-Says p w arrived token local (nobody n e) =
      let id = ap is_empty (get-erase header_auth_token header_id arrived.headers refl ∙ e) in
      ground (arith, n, token, local, id)
  strip-Says p w arrived token local (someone n e t) =
      let who = whois_of_headers-erase arrived.headers ∙ e in
      let id = ap (λ x. is_empty x.id) who ∙ n in
      let ok = text_eq_iff (get header_auth_token arrived.headers) p.proxy_auth_token in
      ground (arith, n, token, local, id, t, ok, who)

  -- If a port names its users and its target is the management server, and a request comes there from this
  -- host with the headers that the port sent and a token that is not empty, then its user there is the user
  -- of the port's own request, and where that request had none, the user stays that of the connection.
  pub strip-proxy_rewrite :
      (p : Rewriting) (r : Request) (out : Header) (arrived : Request)
      → p.identity_headers ≡ true
      → is_management_target p.target p.http_port ≡ true
      → is_empty p.proxy_auth_token ≡ false
      → is_localhost split_host parse_ip arrived.remote_addr ≡ true
      → arrived.headers ≡ proxy_rewrite split_host parse_ip p r out
      → resolve_whois (strip_proxy_identity_headers split_host parse_ip p.proxy_auth_token arrived)
        ≡ (if is_empty (resolve_whois r).id then resolve_whois arrived else resolve_whois r)
  unfolding resolve_whois
  strip-proxy_rewrite p r out arrived on to token local h =
      strip-Says p r.whois arrived token local
        (rw h (proxy_rewrite-Says p r out on to r.whois refl (is_empty (whois_or r.whois).id) refl))

  lookup-del_all-erase :
      (k j : Text) (ks : List Text) (h : Header)
      → lookup k (del_all ks (erase j h)) ≡ (if is_among k (j ∷ ks) then none else lookup k h)
  lookup-del_all-erase k j ks h =
      ground (arith, lookup-del_all k ks (erase j h), lookup-erase j k h)

  -- Nothing of an identity reaches the handlers as a header, and the other headers stay.
  pub lookup-strip :
      (token k : Text) (r : Request)
      → lookup k (strip_proxy_identity_headers split_host parse_ip token r).headers
        ≡ (if is_among k (header_auth_token ∷ identity_headers) then none else lookup k r.headers)
  unfolding strip_proxy_identity_headers
  lookup-strip token k r = lookup-del_all-erase k header_auth_token identity_headers r.headers

  -- If the user of a request is another one behind the stripping than before it, the request comes from this
  -- host and carries the token, which is not empty.
  pub strip-stranger :
      (token : Text) (r : Request)
      → resolve_whois (strip_proxy_identity_headers split_host parse_ip token r) ≢ resolve_whois r
      → (is_localhost split_host parse_ip r.remote_addr ≡ true)
        × (is_empty token ≡ false)
        × (get header_auth_token r.headers ≡ token)
  unfolding strip_proxy_identity_headers resolve_whois valid_token
  strip-stranger token r h = ground (arith, text_eq_iff (get header_auth_token r.headers) token)
