-- ===== src/Domain/Choice.antt =====
-- Whether a domain is set up at all: `ValidateProxyConfig` of internal/config/validator.go and
-- `prepareDomainSetup` of internal/proxymanager/domain.go.
use tsdproxy.Common.{
  ◌≡◌, refl, sym, Bool, true, false, not, ◌&&◌, List, Option, none, some, arith, if◌then◌else◌,
  Text, text_Eq, Result, ok, err, ◌>>◌, guard, ◌⊎◌, inl, inr, Result-cases, ◌>>=◌,
}
use tsdproxy.Common.Maps.{Map, lookup}
use tsdproxy.Config.{TlsProviderConfig, is_empty}
use tsdproxy.Manager.Registry.{
  ResolveError, proxy_provider_not_found, target_provider_not_found, no_dns_provider,
  no_tls_provider, dns_provider_not_found, tls_provider_not_found, acme_without_dns,
  dns_without_acme, acme_failed, nil_dereference,
}
use tsdproxy.Manager.Certificates.{
  TlsProvider, or_default, made, resolve_dns_provider, resolve_global, new_acme_provider,
  resolve_configured, resolve_tls_provider, resolve_and_set_providers,
}

pub data DomainProviderError : Type 0 where
  without_dns without_tls : DomainProviderError

unfoldable pub validate_proxy_config :
    Text → Text → Text → Text → Text → Result DomainProviderError (Unit {0})
validate_proxy_config domain dns tls default_dns default_tls =
    if is_empty domain
    then ok tt
    else guard (not (is_empty dns && is_empty default_dns)) without_dns
      >> guard (not (is_empty tls && is_empty default_tls)) without_tls

-- The part of a proxy's configuration and of the manager's that is read.
pub record DomainConfig : Type 0 where
  pub domain : Text
  pub dns_provider : Text
  pub tls_provider : Text
  pub default_dns : Text
  pub default_tls : Text
  pub tls_configured : Map Text (Option TlsProviderConfig)
  pub tls_global : List Text

module _ {ℓ κ} {D : Type ℓ} {A : Type κ} (solves : D → Bool)
    (new_acme : TlsProviderConfig → D → Option A) where
  unfoldable pub resolve_for : Map Text D → DomainConfig → Result ResolveError (D × TlsProvider A)
  resolve_for dns_providers c =
      resolve_and_set_providers solves new_acme dns_providers c.default_dns c.dns_provider
        c.tls_configured c.tls_global c.default_tls c.tls_provider

  abbrev pub skips : {E : Type 0} → Result E (D × TlsProvider A) → Bool × Option (D × TlsProvider A)
  skips (err e) = (true, none)
  skips (ok p) = (false, some p)

  abbrev pub unless_invalid :
      Result DomainProviderError (Unit {0})
      → Bool × Option (D × TlsProvider A)
      → Bool × Option (D × TlsProvider A)
  unless_invalid (err e) later = (true, none)
  unless_invalid (ok u) later = later

  -- Whether the set-up is skipped, and the providers that the proxy then has.
  unfoldable pub prepare_domain_setup :
      Map Text D → DomainConfig → Bool × Option (D × TlsProvider A)
  unfolding validate_proxy_config resolve_for
  prepare_domain_setup dns_providers c =
      unless_invalid
        (validate_proxy_config c.domain c.dns_provider c.tls_provider c.default_dns c.default_tls)
        (skips (resolve_for dns_providers c))

-- The errors of a provider that nothing names.
abbrev pub is_unnamed : ResolveError → Bool
is_unnamed proxy_provider_not_found = false
is_unnamed target_provider_not_found = false
is_unnamed no_dns_provider = true
is_unnamed dns_provider_not_found = false
is_unnamed no_tls_provider = true
is_unnamed tls_provider_not_found = false
is_unnamed acme_without_dns = false
is_unnamed dns_without_acme = false
is_unnamed acme_failed = false
is_unnamed nil_dereference = false

abbrev pub lacks_name {ℓ} : {R : Type ℓ} → Result ResolveError R → Bool
lacks_name (ok r) = false
lacks_name (err e) = is_unnamed e

module _ {ℓ κ} {D : Type ℓ} {A : Type κ} (solves : D → Bool)
    (new_acme : TlsProviderConfig → D → Option A) where
  both_named :
      (c : DomainConfig)
      → is_empty c.domain ≡ false
      → validate_proxy_config c.domain c.dns_provider c.tls_provider c.default_dns c.default_tls
        ≡ ok tt
      → (is_empty c.dns_provider && is_empty c.default_dns ≡ false)
        × (is_empty c.tls_provider && is_empty c.default_tls ≡ false)
  unfolding validate_proxy_config
  both_named c h e = ground (arith, h, e)

  dns_named :
      (m : Map Text D) (default name : Text)
      → is_empty name && is_empty default ≡ false
      → lacks_name (resolve_dns_provider m default name) ≡ false
  unfolding resolve_dns_provider
  dns_named m default name e = ground (arith, e)

  global_named :
      (global : List Text) (name : Text) → lacks_name (resolve_global {A = A} global name) ≡ false
  unfolding resolve_global
  global_named global name = ground arith

  made_named : (o : Option A) → lacks_name (made o) ≡ false
  made_named none = refl
  made_named (some a) = refl

  acme_named :
      (c : TlsProviderConfig) (o : Option D)
      → lacks_name (new_acme_provider solves new_acme c o) ≡ false
  unfolding new_acme_provider
  acme_named c none = refl
  acme_named c (some d) = ground (arith, made_named (new_acme c d))

  configured_named :
      (o : Option (Option TlsProviderConfig)) (global : List Text) (name : Text) (d : Option D)
      → lacks_name (resolve_configured solves new_acme o global name d) ≡ false
  unfolding resolve_configured
  configured_named none global name d = global_named global name
  configured_named (some none) global name d = refl
  configured_named (some (some c)) global name d =
      ground (arith, global_named global name, acme_named c d)

  tls_named :
      (configured : Map Text (Option TlsProviderConfig)) (global : List Text) (default own : Text)
      (d : Option D)
      → is_empty own && is_empty default ≡ false
      → lacks_name (resolve_tls_provider solves new_acme configured global default own d) ≡ false
  unfolding resolve_tls_provider
  tls_named configured global default own d e = ground (
    arith,
    e,
    configured_named (lookup (or_default own default) configured) global (or_default own default) d,
  )

  bound_named {μ ν} :
      {R : Type μ} {S : Type ν} (r : Result ResolveError R) (f : R → Result ResolveError S)
      → lacks_name r ≡ false
      → ((a : R) → lacks_name (f a) ≡ false)
      → lacks_name (r >>= f) ≡ false
  bound_named (ok a) f e g = g a
  bound_named (err x) f e g = e

  -- For a proxy with a domain that passed the check of its configuration, the search for its providers never
  -- ends for the reason that none is named.
  pub validate-resolve :
      (dns_providers : Map Text D) (c : DomainConfig)
      → is_empty c.domain ≡ false
      → validate_proxy_config c.domain c.dns_provider c.tls_provider c.default_dns c.default_tls
        ≡ ok tt
      → lacks_name (resolve_for solves new_acme dns_providers c) ≡ false
  unfolding validate_proxy_config resolve_for resolve_and_set_providers
  validate-resolve dns_providers c h e =
      let (a, b) = both_named c h e in
      bound_named (resolve_dns_provider dns_providers c.default_dns c.dns_provider) _
        (dns_named dns_providers c.default_dns c.dns_provider a)
        (λ d.
          bound_named
            (resolve_tls_provider solves new_acme c.tls_configured c.tls_global c.default_tls
              c.tls_provider (some d))
            _ (tls_named c.tls_configured c.tls_global c.default_tls c.tls_provider (some d) b)
            (λ t. refl))

  dns_unnamed :
      (m : Map Text D) (default name : Text)
      → is_empty name && is_empty default ≡ true
      → resolve_dns_provider m default name ≡ err no_dns_provider
  unfolding resolve_dns_provider
  dns_unnamed m default name e = ground (arith, e)

  tls_unnamed :
      (configured : Map Text (Option TlsProviderConfig)) (global : List Text) (default own : Text)
      (d : Option D)
      → is_empty own && is_empty default ≡ true
      → resolve_tls_provider solves new_acme configured global default own d ≡ err no_tls_provider
  unfolding resolve_tls_provider
  tls_unnamed configured global default own d e = ground (arith, e)

  some_unnamed :
      (c : DomainConfig) (x : DomainProviderError)
      → validate_proxy_config c.domain c.dns_provider c.tls_provider c.default_dns c.default_tls
        ≡ err x
      → (is_empty c.dns_provider && is_empty c.default_dns ≡ true)
        ⊎ (is_empty c.tls_provider && is_empty c.default_tls ≡ true)
  unfolding validate_proxy_config
  some_unnamed c x e = ground (arith, e)

  second_fails :
      (r : Result ResolveError D) (c : DomainConfig)
      → is_empty c.tls_provider && is_empty c.default_tls ≡ true
      → skips solves new_acme (
          r >>= λ d.
          resolve_tls_provider solves new_acme c.tls_configured c.tls_global c.default_tls
            c.tls_provider
            (some d)
          >>= λ t. ok (d, t))
        ≡ (true, none)
  second_fails (err y) c e = refl
  second_fails (ok d) c e =
      rw (tls_unnamed c.tls_configured c.tls_global c.default_tls c.tls_provider (some d) e) refl

  unnamed_fails :
      (dns_providers : Map Text D) (c : DomainConfig) (x : DomainProviderError)
      → validate_proxy_config c.domain c.dns_provider c.tls_provider c.default_dns c.default_tls
        ≡ err x
      → skips solves new_acme (resolve_for solves new_acme dns_providers c) ≡ (true, none)
  unfolding resolve_for resolve_and_set_providers
  unnamed_fails dns_providers c x e = elim (some_unnamed c x e) [
    | inl none_of_dns ↦ rw (dns_unnamed dns_providers c.default_dns c.dns_provider none_of_dns) refl
    | inr none_of_tls ↦
        second_fails (resolve_dns_provider dns_providers c.default_dns c.dns_provider) c none_of_tls
  ]

  -- Whether the set-up of a domain is skipped depends on the search for its providers alone: the check before
  -- it never skips what would have succeeded.
  pub prepare-resolve :
      (dns_providers : Map Text D) (c : DomainConfig)
      → prepare_domain_setup solves new_acme dns_providers c
        ≡ skips solves new_acme (resolve_for solves new_acme dns_providers c)
  unfolding prepare_domain_setup
  prepare-resolve dns_providers c =
      elim (Result-cases (
        validate_proxy_config c.domain c.dns_provider c.tls_provider c.default_dns c.default_tls)) [
          | inl (u, e) ↦ rw e refl
          | inr (x, e) ↦ rw e (sym (unnamed_fails dns_providers c x e))
        ]
