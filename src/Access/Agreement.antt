-- ===== src/Access/Agreement.antt =====
-- How the steps of internal/proxymanager/port_http.go's rewriting act on one header.
use tsdproxy.Common.{
  ◌≡◌, refl, sym, ap, ◌∙◌, Bool, true, false, List, [], ◌∷◌, Option, none, some, arith,
  if◌then◌else◌, Text, text_eq, text_Eq, text_eq_iff,
}
use tsdproxy.Common.Maps.{lookup, erase, lookup-insert, lookup-erase}
use tsdproxy.Strings.{codes}
use tsdproxy.Access.Addresses.{Ip}
use tsdproxy.Access.Headers.{
  Header, values, values_of, set_header, set_all, del_all, trusted_proxy_headers, header_auth_token,
  header_real_ip, header_x_forwarded_for,
}
use tsdproxy.Access.Forward.{
  Whois, Request, Rewriting, identity_of, inject_identity, set_x_forwarded, forwarded_for, joined,
  proto_of, set_peer, set_proto, resolve_peer_ip, proxy_rewrite,
}
use tsdproxy.Access.Admin.{is_among}

-- A header of two requests.
abbrev pub Agree : Text → Header → Header → Type 0
Agree k h g = lookup k h ≡ lookup k g

pub set_header-Agree :
    (k j v : Text) (h g : Header) → Agree k h g → Agree k (set_header j v h) (set_header j v g)
unfolding set_header
set_header-Agree k j v h g e =
    ground (arith, lookup-insert j k (v ∷ []) h, lookup-insert j k (v ∷ []) g, e)

pub set_all-Agree :
    (k : Text) (kvs : List (Text × Text)) (h g : Header)
    → Agree k h g
    → Agree k (set_all kvs h) (set_all kvs g)
unfolding set_all
set_all-Agree k [] h g e = e
set_all-Agree k ((j, v) ∷ kvs) h g e =
    set_all-Agree k kvs (set_header j v h) (set_header j v g) (set_header-Agree k j v h g e)

pub lookup-del_all :
    (k : Text) (ks : List Text) (h : Header)
    → lookup k (del_all ks h) ≡ (if is_among k ks then none else lookup k h)
unfolding del_all
lookup-del_all k [] h = refl
lookup-del_all k (j ∷ ks) h = ground (arith, lookup-del_all k ks (erase j h), lookup-erase j k h)

pub inject_identity-Agree :
    (k : Text) (p : Rewriting) (w : Option Whois) (h g : Header)
    → Agree k h g
    → Agree k (inject_identity p w h) (inject_identity p w g)
unfolding inject_identity
inject_identity-Agree k p none h g e = e
inject_identity-Agree k p (some user) h g e =
    let named = set_all-Agree k (identity_of user) h g e in
    let token = set_header-Agree k header_auth_token p.proxy_auth_token _ _ named in
    ground (arith, e, named, token)

-- A name with which a list of pairs ends up.
abbrev pub set_value : Text → List (Text × Text) → Option (List Text) → Option (List Text)
set_value k [] before = before
set_value k ((j, v) ∷ kvs) before = set_value k kvs (if text_eq j k then some (v ∷ []) else before)

pub lookup-set_all :
    (k : Text) (kvs : List (Text × Text)) (h : Header)
    → lookup k (set_all kvs h) ≡ set_value k kvs (lookup k h)
unfolding set_all set_header
lookup-set_all k [] h = refl
lookup-set_all k ((j, v) ∷ kvs) h =
    lookup-set_all k kvs (set_header j v h) ∙ ap (set_value k kvs) (lookup-insert j k (v ∷ []) h)

-- The names that are set behind the identity.
abbrev pub behind : List Text
behind =
    header_x_forwarded_for
    ∷ header_real_ip
    ∷ codes "x-forwarded-host"
    ∷ codes "x-forwarded-proto"
    ∷ []

module _ (split_host : Text → Option Text) (parse_ip : Text → Option Ip) where
  forwarded_for-Agree :
      (ip : Option Text) (k : Text) (h g : Header)
      → Agree header_x_forwarded_for h g
      → Agree k h g
      → Agree k (forwarded_for split_host parse_ip ip h) (forwarded_for split_host parse_ip ip g)
  unfolding values
  forwarded_for-Agree none k h g x e =
      ground
        (arith, lookup-erase header_x_forwarded_for k h, lookup-erase header_x_forwarded_for k g, e)
  forwarded_for-Agree (some ip) k h g x e =
      ap (λ vs. lookup k (set_header header_x_forwarded_for (joined vs ip) h)) (ap values_of x)
      ∙ set_header-Agree k header_x_forwarded_for _ h g e

  set_x_forwarded-Agree :
      (r : Request) (k : Text) (h g : Header)
      → Agree header_x_forwarded_for h g
      → Agree k h g
      → Agree k (set_x_forwarded split_host parse_ip r h) (set_x_forwarded split_host parse_ip r g)
  unfolding set_x_forwarded
  set_x_forwarded-Agree r k h g x e =
      set_header-Agree k _ _ _ _
        (set_header-Agree k _ _ _ _ (forwarded_for-Agree (split_host r.remote_addr) k h g x e))

  set_peer-Agree :
      (ip : Text) (k : Text) (h g : Header)
      → Agree k h g
      → Agree k (set_peer split_host parse_ip ip h) (set_peer split_host parse_ip ip g)
  unfolding set_peer
  set_peer-Agree ip k h g e =
      let named =
        set_header-Agree k header_x_forwarded_for ip _ _
          (set_header-Agree k header_real_ip ip h g e) in
      ground (arith, e, named)

  set_proto-Agree :
      (https : Bool) (k : Text) (h g : Header)
      → Agree k h g
      → Agree k (set_proto split_host parse_ip https h) (set_proto split_host parse_ip https g)
  unfolding set_proto
  set_proto-Agree https k h g e =
      let named = set_header-Agree k (codes "x-forwarded-proto") (proto_of true) h g e in
      ground (arith, e, named)

  -- What the rewriting of a request sends under a trusted name does not depend on the headers that were copied
  -- from the client.
  pub proxy_rewrite-Agree :
      (p : Rewriting) (r : Request) (k : Text) (h g : Header)
      → is_among k trusted_proxy_headers ≡ true
      → Agree k (proxy_rewrite split_host parse_ip p r h) (proxy_rewrite split_host parse_ip p r g)
  unfolding proxy_rewrite
  proxy_rewrite-Agree p r k h g m = set_proto-Agree p.https k _ _ (
      set_peer-Agree (resolve_peer_ip split_host parse_ip r) k _ _
        (set_x_forwarded-Agree r k _ _ (named header_x_forwarded_for refl) (named k m)))
    where
      clean :
          (j : Text)
          → is_among j trusted_proxy_headers ≡ true
          → (x : Header) → lookup j (del_all trusted_proxy_headers x) ≡ none
      clean j e x =
          lookup-del_all j trusted_proxy_headers x ∙ ap (λ b. if b then none else lookup j x) e

      named :
          (j : Text)
          → is_among j trusted_proxy_headers ≡ true
          → Agree j
              (if p.identity_headers
                then inject_identity p r.whois (del_all trusted_proxy_headers h)
                else del_all trusted_proxy_headers h)
              (if p.identity_headers
                then inject_identity p r.whois (del_all trusted_proxy_headers g)
                else del_all trusted_proxy_headers g)
      named j e =
          let plain = clean j e h ∙ sym (clean j e g) in
          let user = inject_identity-Agree j p r.whois _ _ plain in ground (arith, plain, user)

  lookup-set_behind :
      (k j v : Text) (h : Header)
      → is_among k behind ≡ false
      → is_among j behind ≡ true
      → lookup k (set_header j v h) ≡ lookup k h
  unfolding set_header
  lookup-set_behind k j v h e m = ground (arith, lookup-insert j k (v ∷ []) h, text_eq_iff j k)

  lookup-forwarded_for :
      (k : Text) (ip : Option Text) (h : Header)
      → is_among k behind ≡ false
      → lookup k (forwarded_for split_host parse_ip ip h) ≡ lookup k h
  lookup-forwarded_for k none h e =
      ground (arith, lookup-erase header_x_forwarded_for k h, text_eq_iff header_x_forwarded_for k)
  lookup-forwarded_for k (some ip) h e = lookup-set_behind k header_x_forwarded_for _ h e refl

  lookup-set_x_forwarded :
      (k : Text) (r : Request) (h : Header)
      → is_among k behind ≡ false
      → lookup k (set_x_forwarded split_host parse_ip r h) ≡ lookup k h
  unfolding set_x_forwarded
  lookup-set_x_forwarded k r h e =
      lookup-set_behind k (codes "x-forwarded-proto") _ _ e refl
      ∙ lookup-set_behind k (codes "x-forwarded-host") _ _ e refl
      ∙ lookup-forwarded_for k (split_host r.remote_addr) h e

  lookup-set_peer :
      (k ip : Text) (h : Header)
      → is_among k behind ≡ false
      → lookup k (set_peer split_host parse_ip ip h) ≡ lookup k h
  unfolding set_peer
  lookup-set_peer k ip h e =
      let real = lookup-set_behind k header_real_ip ip h e refl in
      let for =
        lookup-set_behind k header_x_forwarded_for ip (set_header header_real_ip ip h) e refl in
      ground (arith, real, for)

  lookup-set_proto :
      (k : Text) (https : Bool) (h : Header)
      → is_among k behind ≡ false
      → lookup k (set_proto split_host parse_ip https h) ≡ lookup k h
  unfolding set_proto
  lookup-set_proto k https h e =
      let proto = lookup-set_behind k (codes "x-forwarded-proto") (proto_of true) h e refl in
      ground (arith, proto)

  -- The identity stays as it was injected.
  pub lookup-proxy_rewrite :
      (p : Rewriting) (r : Request) (k : Text) (h : Header)
      → is_among k behind ≡ false
      → is_among k trusted_proxy_headers ≡ true
      → lookup k (proxy_rewrite split_host parse_ip p r h)
        ≡ (if p.identity_headers then lookup k (inject_identity p r.whois []) else none)
  unfolding proxy_rewrite lookup
  lookup-proxy_rewrite p r k h e m =
      let clean =
        lookup-del_all k trusted_proxy_headers h ∙ ap (λ b. if b then none else lookup k h) m in
      let user = inject_identity-Agree k p r.whois (del_all trusted_proxy_headers h) [] clean in
      lookup-set_proto k p.https _ e
      ∙ lookup-set_peer k (resolve_peer_ip split_host parse_ip r) _ e
      ∙ lookup-set_x_forwarded k r _ e
      ∙ ground (arith, clean, user)
