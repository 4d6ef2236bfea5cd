-- ===== src/Manager/Registry.antt =====
-- The providers that the manager knows, internal/proxymanager/providers.go, and how a proxy's own are
-- found. A provider is of a type of its own, `P` or `T`: its code is not modelled here.
use tsdproxy.Common.{
  not, [], ◌∷◌, Option, none, some, if◌then◌else◌, Text, text_Eq, Result, err, or_fail,
}
use tsdproxy.Common.Maps.{Map, lookup, insert}
use tsdproxy.Config.{TailscaleServerConfig, to_lower, is_empty}
use tsdproxy.Manager.{TargetConfig}

pub data ResolveError : Type 0 where
  proxy_provider_not_found target_provider_not_found : ResolveError
  no_dns_provider dns_provider_not_found : ResolveError
  no_tls_provider tls_provider_not_found acme_without_dns dns_without_acme acme_failed :
      ResolveError
  -- not an error value: the dereference of a nil configuration
  nil_dereference : ResolveError

abbrev pub or_else {ℓ} : {A : Type ℓ} → Option A → Option A → Option A
or_else (some a) o = some a
or_else none o = o

module _ {ℓ} {P : Type ℓ} where
  -- `addProxyProvider`
  unfoldable pub add_proxy_provider : P → Text → Map Text P → Map Text P
  add_proxy_provider p name m = insert (to_lower name) p m

  -- One round of `addProxyProviders`, for what `tsproxy.New` made.
  unfoldable pub add_created : Option P → Text → Map Text P → Map Text P
  unfolding add_proxy_provider
  add_created none name m = m
  add_created (some p) name m = add_proxy_provider p name m

  unfoldable pub add_proxy_providers :
      (Text → Option TailscaleServerConfig → Option P)
      → Map Text (Option TailscaleServerConfig)
      → Map Text P
      → Map Text P
  unfolding add_created
  add_proxy_providers create [] m = m
  add_proxy_providers create ((name, c) ∷ cs) m =
      add_proxy_providers create cs (add_created (create name c) name m)

  -- `target_providers` gives each target provider's default proxy provider.
  unfoldable pub get_proxy_provider :
      Map Text P → Map Text Text → Text → TargetConfig → Result ResolveError P
  get_proxy_provider proxy_providers target_providers default proxy =
      if not (is_empty proxy.proxy_provider)
      then or_fail (lookup (to_lower proxy.proxy_provider) proxy_providers) proxy_provider_not_found
      else elim (lookup proxy.target_provider target_providers) [
        | none ↦ err target_provider_not_found
        | some name ↦
            or_fail
              (or_else (lookup (to_lower name) proxy_providers)
                (lookup (to_lower default) proxy_providers))
              proxy_provider_not_found
      ]
