-- ===== src/Manager/Certificates.antt =====
-- How the DNS and the TLS provider of a proxy are found: internal/proxymanager/providers.go. `D` is
-- the type of the DNS providers; whether one can answer ACME challenges is `solves`, and what
-- `acmetls.New` makes of a configuration is `new_acme`, of type `A`.
use mathlib.Core.Path.{subst}
use tsdproxy.Common.{
  ◌≡◌, refl, ap, ◌∙◌, Bool, true, false, not, ◌||◌, List, [], ◌∷◌, Option, none, some, arith,
  if◌then◌else◌, Text, text_eq, text_Eq, text_eq_iff, if_both, Ensures-ok, ok-injective, Result, ok,
  err, ◌>>=◌, or_fail, Ensures, >>=-eq-ok,
}
use tsdproxy.Common.Maps.{Map, lookup, insert}
use tsdproxy.Config.{
  TlsProviderConfig, DnsProviderConfig, is_empty, tls_tailscale, acme, cloudflare, magicdns,
}
use tsdproxy.Manager.Registry.{
  ResolveError, no_dns_provider, dns_provider_not_found, no_tls_provider, tls_provider_not_found,
  acme_without_dns, dns_without_acme, acme_failed, nil_dereference,
}

-- A TLS provider: Tailscale's, one made for this proxy, or a global one.
pub data TlsProvider {ℓ} (A : Type ℓ) : Type ℓ where
  tailscale_tls : TlsProvider A
  acme_tls : A → TlsProvider A
  global_tls : Text → TlsProvider A

abbrev pub or_default : Text → Text → Text
or_default name default = if is_empty name then default else name

module _ {ℓ} {D : Type ℓ} (cloudflare_dns : Text → D) (magic_dns : D) where
  -- One round of `addDNSProviders`.
  unfoldable pub add_dns_provider : Text → Option DnsProviderConfig → Map Text D → Map Text D
  add_dns_provider name none m = m
  add_dns_provider name (some c) m =
      if text_eq c.provider cloudflare
      then (if is_empty c.api_token then m else insert name (cloudflare_dns c.api_token) m)
      else if text_eq c.provider magicdns
      then insert name magic_dns m
      else m

  unfoldable pub add_dns_providers : Map Text (Option DnsProviderConfig) → Map Text D → Map Text D
  unfolding add_dns_provider
  add_dns_providers [] m = m
  add_dns_providers ((name, c) ∷ cs) m = add_dns_providers cs (add_dns_provider name c m)

module _ {ℓ} {D : Type ℓ} where
  unfoldable pub resolve_dns_provider : Map Text D → Text → Text → Result ResolveError D
  resolve_dns_provider dns_providers default name =
      if not (is_empty name)
      then or_fail (lookup name dns_providers) dns_provider_not_found
      else if not (is_empty default)
      then or_fail (lookup default dns_providers) dns_provider_not_found
      else err no_dns_provider

-- A name that the manager's own table has.
abbrev pub is_listed : Text → List Text → Bool
is_listed name [] = false
is_listed name (n ∷ ns) = text_eq n name || is_listed name ns

unfoldable pub resolve_global {κ} :
    {A : Type κ} → List Text → Text → Result ResolveError (TlsProvider A)
resolve_global global name =
    if is_listed name global then ok (global_tls name) else err tls_provider_not_found

abbrev pub made {κ} : {A : Type κ} → Option A → Result ResolveError (TlsProvider A)
made none = err acme_failed
made (some a) = ok (acme_tls a)

dns_found {ℓ} :
    {D : Type ℓ} (dns_providers : Map Text D) (default name : Text) (d : D)
    → resolve_dns_provider dns_providers default name ≡ ok d
    → lookup (or_default name default) dns_providers ≡ some d
unfolding resolve_dns_provider
dns_found dns_providers default name d h = ground (arith, h)

module _ {ℓ κ} {D : Type ℓ} {A : Type κ} (solves : D → Bool)
    (new_acme : TlsProviderConfig → D → Option A) where
  unfoldable pub new_acme_provider :
      TlsProviderConfig → Option D → Result ResolveError (TlsProvider A)
  new_acme_provider c none = err acme_without_dns
  new_acme_provider c (some d) = if solves d then made (new_acme c d) else err dns_without_acme

  -- The entry of the configuration decides. One that is unset (`nil`) is dereferenced all the same.
  unfoldable pub resolve_configured :
      Option (Option TlsProviderConfig)
      → List Text
      → Text
      → Option D
      → Result ResolveError (TlsProvider A)
  unfolding new_acme_provider
  resolve_configured (some none) global name dns = err nil_dereference
  resolve_configured (some (some c)) global name dns =
      if text_eq c.provider tls_tailscale
      then ok tailscale_tls
      else if text_eq c.provider acme
      then new_acme_provider c dns
      else resolve_global global name
  resolve_configured none global name dns = resolve_global global name

  unfoldable pub resolve_tls_provider :
      Map Text (Option TlsProviderConfig)
      → List Text
      → Text
      → Text
      → Option D
      → Result ResolveError (TlsProvider A)
  unfolding resolve_configured
  resolve_tls_provider configured global default own dns =
      let name = or_default own default in
      if is_empty name
      then err no_tls_provider
      else if text_eq name tls_tailscale
      then ok tailscale_tls
      else resolve_configured (lookup name configured) global name dns

  -- `resolveAndSetProviders`: the pair that is set on the proxy.
  unfoldable pub resolve_and_set_providers :
      Map Text D
      → Text
      → Text
      → Map Text (Option TlsProviderConfig)
      → List Text
      → Text
      → Text
      → Result ResolveError (D × TlsProvider A)
  resolve_and_set_providers dns_providers default_dns own_dns configured global default_tls
        own_tls =
      resolve_dns_provider dns_providers default_dns own_dns >>= λ d.
      resolve_tls_provider configured global default_tls own_tls (some d) >>= λ t. ok (d, t)

  -- The certificate maker of `t`, if it is an ACME one, was made for `o`, which can answer challenges.
  abbrev pub IsBound : Map Text (Option TlsProviderConfig) → Text → D → TlsProvider A → Type κ
  IsBound configured name d t =
      (a : A)
      → t ≡ acme_tls a
      → (c : TlsProviderConfig) × (lookup name configured ≡ some (some c))
        × (c.provider ≡ acme)
        × (solves d ≡ true)
        × (new_acme c d ≡ some a)

  global-IsBound :
      (configured : Map Text (Option TlsProviderConfig)) (global : List Text) (name : Text) (d : D)
      → Ensures (IsBound configured name d) (resolve_global global name)
  unfolding resolve_global
  global-IsBound configured global name d =
      if_both (Ensures (IsBound configured name d)) (is_listed name global) (λ _ a e. absurd (cc e))
        (λ _. tt)

  made-IsBound :
      (configured : Map Text (Option TlsProviderConfig)) (name : Text) (c : TlsProviderConfig)
      (d : D) (o : Option A)
      → lookup name configured ≡ some (some c)
      → c.provider ≡ acme
      → solves d ≡ true
      → new_acme c d ≡ o
      → Ensures (IsBound configured name d) (made o)
  made-IsBound configured name c d none here kind able e = tt
  made-IsBound configured name c d (some a) here kind able e = λ b same. (c, here, kind, able, cc)

  configured-IsBound :
      (configured : Map Text (Option TlsProviderConfig)) (o : Option (Option TlsProviderConfig))
      (global : List Text) (name : Text) (d : D)
      → lookup name configured ≡ o
      → Ensures (IsBound configured name d) (resolve_configured o global name (some d))
  unfolding resolve_configured new_acme_provider
  configured-IsBound configured none global name d e = global-IsBound configured global name d
  configured-IsBound configured (some none) global name d e = tt
  configured-IsBound configured (some (some c)) global name d e =
      let P = Ensures (IsBound configured name d) in
      if_both P (text_eq c.provider tls_tailscale) (λ _ a same. absurd (cc same))
        (λ _.
          if_both P (text_eq c.provider acme)
            (λ kind.
              if_both P (solves d)
                (λ able.
                  made-IsBound configured name c d (new_acme c d) e
                    ((text_eq_iff c.provider acme).0 kind) able refl)
                (λ _. tt))
            (λ _. global-IsBound configured global name d))

  tls-IsBound :
      (configured : Map Text (Option TlsProviderConfig)) (global : List Text) (default own : Text)
      (d : D)
      → Ensures
          (IsBound configured (or_default own default) d)
          (resolve_tls_provider configured global default own (some d))
  unfolding resolve_tls_provider
  tls-IsBound configured global default own d =
      let name = or_default own default in
      let P = Ensures (IsBound configured name d) in
      if_both P (is_empty name) (λ _. tt)
        (λ _.
          if_both P (text_eq name tls_tailscale) (λ _ a same. absurd (cc same))
            (λ _. configured-IsBound configured (lookup name configured) global name d refl))

  -- Where both providers of a proxy are found, its DNS provider is the one that its own name, else the
  -- default, stands for, and its certificate maker, if it is an ACME one, was made for that DNS provider,
  -- from the ACME entry under the TLS provider's name, and can answer the challenges.
  pub resolve_and_set_providers_sound :
      (dns_providers : Map Text D) (default_dns own_dns : Text)
      (configured : Map Text (Option TlsProviderConfig)) (global : List Text)
      (default_tls own_tls : Text) (d : D) (t : TlsProvider A)
      → resolve_and_set_providers dns_providers default_dns own_dns configured global default_tls
          own_tls
        ≡ ok (d, t)
      → (lookup (or_default own_dns default_dns) dns_providers ≡ some d)
        × IsBound configured (or_default own_tls default_tls) d t
  unfolding resolve_and_set_providers
  resolve_and_set_providers_sound dns_providers default_dns own_dns configured global default_tls
        own_tls d t h =
      let tls = λ (x : D). resolve_tls_provider configured global default_tls own_tls (some x) in
      let (x, found, rest) =
        >>=-eq-ok (resolve_dns_provider dns_providers default_dns own_dns)
          (λ x. tls x >>= λ u. ok (x, u)) h in
      let (u, made_it, pair) = >>=-eq-ok (tls x) (λ u. ok (x, u)) rest in
      let both = ok-injective pair in
      let bound =
        Ensures-ok (IsBound configured (or_default own_tls default_tls) x) (tls x) u
          (tls-IsBound configured global default_tls own_tls x) made_it in
      (
        dns_found dns_providers default_dns own_dns d (found ∙ ap (λ r. ok r.0) both),
        subst
            (λ (r : D × TlsProvider A). IsBound configured (or_default own_tls default_tls) r.0 r.1)
            both bound,
      )
