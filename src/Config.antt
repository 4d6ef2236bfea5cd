-- ===== src/Config.antt =====
-- The checks of a configuration: internal/config/validator.go, with the types of
-- internal/config/config.go, and the checks of a proxy's own configuration in
-- internal/model/proxyconfig.go. The fields kept are those that the checks read.
-- `validator.New().Struct` and `time.ParseDuration` are not code of the repository: the sections below
-- take them as parameters, `struct_ok` and `is_positive`. Names are compared as ASCII texts.
pub mod Providers
pub mod Defaults
pub mod Modes
mod Tests
use tsdproxy.Common.{
  ℕ, ◌+◌, Bool, true, false, not, ◌&&◌, ◌||◌, List, [], ◌∷◌, map, Option, none, some, leb,
  if◌then◌else◌, length, Text, text_eq, text_Eq, Result, ok, err, ◌>>=◌, ◌>>◌, guard, or_fail,
}
use tsdproxy.Common.Maps.{Map, lookup}
use tsdproxy.Strings.{codes}

pub record TailscaleServerConfig : Type 0 where
  pub hostname : Text
  pub client_id : Text
  pub reconcile_interval : Text
  pub client_secret : Text
  pub client_secret_file : Text
  pub tags : Text
  pub prevent_duplicates : Bool
  pub shared : Bool
  pub services : Bool
  pub auto_approve_devices : Bool
  pub auto_remove_conflicts : Bool

pub record DnsProviderConfig : Type 0 where
  pub provider : Text
  pub api_token : Text

pub record TlsProviderConfig : Type 0 where
  pub provider : Text
  pub email : Text

-- The Docker, Incus and Proxmox target providers: what the checks read of one.
pub record TargetProviderConfig : Type 0 where
  pub default_proxy_provider : Text

pub record Data : Type 0 where
  pub tls_providers : Map Text (Option TlsProviderConfig)
  pub dns_providers : Map Text (Option DnsProviderConfig)
  pub docker : Map Text TargetProviderConfig
  pub incus : Map Text TargetProviderConfig
  pub proxmox : Map Text TargetProviderConfig
  pub providers : Map Text (Option TailscaleServerConfig)
  pub default_proxy_provider : Text
  pub default_tls_provider : Text
  pub default_dns_provider : Text

pub data ConfigError : Type 0 where
  struct_invalid : ConfigError
  default_proxy_provider_not_found : Text → ConfigError
  no_default_proxy_provider : ConfigError
  no_providers : ConfigError
  nil_provider shared_and_services shared_without_hostname : ConfigError
  services_without_hostname services_without_client_id : ConfigError
  services_without_secret services_without_tags : ConfigError
  approve_without_oauth remove_without_oauth reconcile_without_oauth : ConfigError
  default_dns_not_found cloudflare_without_token unknown_dns_type : ConfigError
  default_tls_not_found acme_without_email acme_without_dns unknown_tls_type : ConfigError

abbrev pub cloudflare : Text
cloudflare = codes "cloudflare"

abbrev pub magicdns : Text
magicdns = codes "magicdns"

abbrev pub tls_tailscale : Text
tls_tailscale = codes "tailscale"

abbrev pub acme : Text
acme = codes "acme"

abbrev pub lower_char : ℕ → ℕ
lower_char c = if leb 65 c && leb c 90 then c + 32 else c

-- `strings.ToLower`
abbrev pub to_lower : Text → Text
to_lower = map lower_char

-- `strings.EqualFold`
abbrev pub equal_fold : Text → Text → Bool
equal_fold a b = text_eq (to_lower a) (to_lower b)

abbrev pub is_empty : Text → Bool
is_empty [] = true
is_empty (c ∷ t) = false

unfoldable pub has_oauth_credentials : TailscaleServerConfig → Bool
has_oauth_credentials p =
    not (is_empty p.client_id)
    && (not (is_empty p.client_secret) || not (is_empty p.client_secret_file))

unfoldable pub validate_services_provider : TailscaleServerConfig → Result ConfigError (Unit {0})
validate_services_provider p =
    if not p.services
    then ok tt
    else guard (not (is_empty p.hostname)) services_without_hostname
      >> guard (not (is_empty p.client_id)) services_without_client_id
      >> guard (not (is_empty p.client_secret && is_empty p.client_secret_file))
          services_without_secret
      >> guard (not (is_empty p.tags)) services_without_tags
      >> guard (not (p.auto_approve_devices && not (has_oauth_credentials p))) approve_without_oauth
      >> guard (not (p.auto_remove_conflicts && not (has_oauth_credentials p))) remove_without_oauth

module _ (is_positive : Text → Bool) where
  unfoldable pub validate_provider_oauth_features :
      TailscaleServerConfig → Result ConfigError (Unit {0})
  validate_provider_oauth_features p =
      guard
        (not (
          is_positive p.reconcile_interval
          && not (has_oauth_credentials p)
          && not p.prevent_duplicates))
        reconcile_without_oauth

  -- The loop's body in `validateProxyProviders`.
  unfoldable pub validate_provider : Option TailscaleServerConfig → Result ConfigError (Unit {0})
  validate_provider none = err nil_provider
  validate_provider (some p) =
      guard (not (p.shared && p.services)) shared_and_services
      >> guard (not (p.shared && is_empty p.hostname)) shared_without_hostname
      >> validate_services_provider p
      >> validate_provider_oauth_features p

  unfoldable pub validate_each :
      Map Text (Option TailscaleServerConfig) → Result ConfigError (Unit {0})
  validate_each [] = ok tt
  validate_each ((k, p) ∷ m) = validate_provider p >> validate_each m

  unfoldable pub validate_proxy_providers : Data → Result ConfigError (Unit {0})
  validate_proxy_providers c =
      guard (leb 1 (length c.providers)) no_providers >> validate_each c.providers

unfoldable pub validate_dns_provider : Option DnsProviderConfig → Result ConfigError (Unit {0})
validate_dns_provider none = ok tt
validate_dns_provider (some p) =
    if text_eq p.provider cloudflare
    then guard (not (is_empty p.api_token)) cloudflare_without_token
    else guard (text_eq p.provider magicdns) unknown_dns_type

unfoldable pub validate_each_dns :
    Map Text (Option DnsProviderConfig) → Result ConfigError (Unit {0})
validate_each_dns [] = ok tt
validate_each_dns ((k, p) ∷ m) = validate_dns_provider p >> validate_each_dns m

-- A default that is set must be a key of the map.
unfoldable pub is_known_default {ℓ} : {V : Type ℓ} → Text → Map Text V → Bool
is_known_default name m = is_empty name || elim (lookup name m) [ none ↦ false | some v ↦ true ]

unfoldable pub validate_dns_providers : Data → Result ConfigError (Unit {0})
validate_dns_providers c =
    guard (is_known_default c.default_dns_provider c.dns_providers) default_dns_not_found
    >> validate_each_dns c.dns_providers

unfoldable pub has_cloudflare : Map Text (Option DnsProviderConfig) → Bool
has_cloudflare [] = false
has_cloudflare ((k, none) ∷ m) = has_cloudflare m
has_cloudflare ((k, some p) ∷ m) = text_eq p.provider cloudflare || has_cloudflare m

unfoldable pub validate_tls_provider :
    Data → Option TlsProviderConfig → Result ConfigError (Unit {0})
validate_tls_provider c none = ok tt
validate_tls_provider c (some p) =
    if text_eq p.provider tls_tailscale
    then ok tt
    else if text_eq p.provider acme
    then guard (not (is_empty p.email)) acme_without_email
      >> guard (not (is_empty c.default_dns_provider) || has_cloudflare c.dns_providers)
          acme_without_dns
    else err unknown_tls_type

unfoldable pub validate_each_tls :
    Data → Map Text (Option TlsProviderConfig) → Result ConfigError (Unit {0})
validate_each_tls c [] = ok tt
validate_each_tls c ((k, p) ∷ m) = validate_tls_provider c p >> validate_each_tls c m

unfoldable pub validate_tls_providers : Data → Result ConfigError (Unit {0})
validate_tls_providers c =
    guard (is_known_default c.default_tls_provider c.tls_providers) default_tls_not_found
    >> validate_each_tls c c.tls_providers

unfoldable pub has_name {ℓ} : {V : Type ℓ} → Text → Map Text V → Bool
has_name name [] = false
has_name name ((n, p) ∷ m) = equal_fold n name || has_name name m

unfoldable pub has_proxy_provider : Data → Text → Bool
has_proxy_provider c name = has_name name c.providers

-- The first name that the `range` meets.
unfoldable pub first_name {ℓ} : {V : Type ℓ} → Map Text V → Result ConfigError Text
first_name [] = err no_default_proxy_provider
first_name ((name, p) ∷ m) = ok (to_lower name)

unfoldable pub get_default_proxy_provider : Data → Result ConfigError Text
get_default_proxy_provider c = first_name c.providers

-- `addDefaultProxyProviderTo…Providers`, which is written out for each kind.
unfoldable pub add_default :
    Data → Map Text TargetProviderConfig → Result ConfigError (Map Text TargetProviderConfig)
add_default c [] = ok []
add_default c ((k, p) ∷ m) =
    let rest = add_default c m in
    if is_empty p.default_proxy_provider
    then (rest >>= λ r. ok ((k, record { default_proxy_provider = c.default_proxy_provider }) ∷ r))
    else guard (has_proxy_provider c p.default_proxy_provider)
        (default_proxy_provider_not_found p.default_proxy_provider)
      >> (rest >>= λ r. ok ((k, p) ∷ r))

unfoldable pub set_default_proxy_provider : Data → Result ConfigError Data
set_default_proxy_provider c =
    if is_empty c.default_proxy_provider
    then (get_default_proxy_provider c >>= λ name.
        ok (record c { default_proxy_provider = to_lower name }))
    else guard (has_proxy_provider c c.default_proxy_provider)
        (default_proxy_provider_not_found c.default_proxy_provider)
      >> ok c

unfoldable pub add_defaults : Data → Result ConfigError Data
add_defaults c = add_default c c.docker >>= λ docker. add_default c c.incus >>= λ incus.
    add_default c c.proxmox >>= λ proxmox.
    ok (record c { docker = docker; incus = incus; proxmox = proxmox })

unfoldable pub validate : (Data → Bool) → (Text → Bool) → Data → Result ConfigError Data
validate struct_ok is_positive c =
    guard (struct_ok c) struct_invalid
    >> validate_proxy_providers is_positive c
    >> validate_dns_providers c
    >> validate_tls_providers c
    >> set_default_proxy_provider c
    >>= add_defaults
