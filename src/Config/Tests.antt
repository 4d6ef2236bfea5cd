-- ===== src/Config/Tests.antt =====
-- Small configurations, and the theorems applied to them.
use tsdproxy.Common.{◌≤◌, ◌≡◌, ◌↔◌, refl, true, false, [], ◌∷◌, some, length, text_Eq, ok, err}
use tsdproxy.Common.Maps.{Each, lookup}
use tsdproxy.Strings.{codes}
use tsdproxy.Port.Defs.{default_port_config}
use tsdproxy.Config.{
  TailscaleServerConfig, Data, validate, validate_proxy_providers, validate_provider, validate_each,
  validate_services_provider, validate_provider_oauth_features, has_oauth_credentials,
  validate_dns_providers, validate_each_dns, validate_tls_providers, validate_each_tls,
  validate_tls_provider, is_known_default, add_default, add_defaults, set_default_proxy_provider,
  get_default_proxy_provider, first_name, has_proxy_provider, has_name, magicdns, acme,
  validate_dns_provider, services_without_tags, validate_dns_provider,
}
use tsdproxy.Config.Providers.{IsValidEntry, validate_proxy_providers_lem}
use tsdproxy.Config.Defaults.{IsResolvable, validate-IsResolvable}
use tsdproxy.Config.Modes.{
  ProxyConfig, mode_services, IsFit, validate_proxy_config_for_mode,
  validate_proxy_config_for_mode_lem,
}

abbrev demo_provider : TailscaleServerConfig
demo_provider = record {
  hostname = codes "ts";
  client_id = codes "id";
  reconcile_interval = codes "0";
  client_secret = codes "secret";
  client_secret_file = [];
  tags = codes "tag:ts";
  prevent_duplicates = false;
  shared = false;
  services = true;
  auto_approve_devices = true;
  auto_remove_conflicts = false;
}

abbrev demo_data : Data
demo_data = record {
  tls_providers = (codes "le", some (record { provider = acme; email = codes "me" })) ∷ [];
  dns_providers = (codes "magic", some (record { provider = magicdns; api_token = [] })) ∷ [];
  docker = (codes "local", record { default_proxy_provider = [] }) ∷ [];
  incus = (codes "lab", record { default_proxy_provider = codes "TS" }) ∷ [];
  proxmox = [];
  providers = (codes "Ts", some demo_provider) ∷ [];
  default_proxy_provider = [];
  default_tls_provider = codes "le";
  default_dns_provider = codes "magic";
}

abbrev demo_validated : Data
demo_validated = record demo_data {
  default_proxy_provider = codes "ts";
  docker = (codes "local", record { default_proxy_provider = codes "ts" }) ∷ [];
}

-- Accepted, though the default DNS provider cannot answer the ACME challenges.
demo_accepted : validate (λ c. true) (λ t. false) demo_data ≡ ok demo_validated
unfolding validate validate_proxy_providers validate_provider validate_each
    validate_services_provider validate_provider_oauth_features has_oauth_credentials
    validate_dns_providers validate_dns_provider validate_each_dns validate_tls_providers
    validate_each_tls validate_tls_provider is_known_default lookup add_default add_defaults
    set_default_proxy_provider get_default_proxy_provider first_name has_proxy_provider has_name
demo_accepted = refl

-- A provider of services without tags is refused.
demo_refused :
    validate_proxy_providers
      (λ t. false)
      (record demo_data {
        providers = (codes "ts", some (record demo_provider { tags = [] })) ∷ [];
      })
    ≡ err services_without_tags
unfolding validate_proxy_providers validate_provider validate_each validate_services_provider
demo_refused = refl

validate_proxy_providers_lem_example :
    (validate_proxy_providers (λ t. false) demo_data ≡ ok tt)
    ↔ ((1 ≤ length demo_data.providers) × Each (IsValidEntry (λ t. false)) demo_data.providers)
validate_proxy_providers_lem_example = validate_proxy_providers_lem (λ t. false) demo_data

validate-IsResolvable_example :
    IsResolvable demo_validated × (demo_validated.providers ≡ demo_data.providers)
validate-IsResolvable_example =
    validate-IsResolvable (λ c. true) (λ t. false) demo_data demo_validated demo_accepted

abbrev demo_proxy : ProxyConfig
demo_proxy = record {
  ports =
      (codes "443/https", record (default_port_config (codes "443/https")) { funnel = true }) ∷ [];
  domain = [];
}

validate_proxy_config_for_mode_lem_example :
    (validate_proxy_config_for_mode demo_proxy mode_services ≡ ok tt)
    ↔ IsFit mode_services demo_proxy
validate_proxy_config_for_mode_lem_example =
    validate_proxy_config_for_mode_lem demo_proxy mode_services
