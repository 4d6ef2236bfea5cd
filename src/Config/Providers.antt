-- ===== src/Config/Providers.antt =====
-- Which Tailscale, DNS and TLS providers the checks let pass.
use tsdproxy.Common.{
  ◌≤◌, ◌≡◌, ◌↔◌, ◌⊎◌, inl, inr, refl, Bool, true, false, not, ◌&&◌, [], ◌∷◌, Option, none, some,
  arith, leb, length, Text, Result, ok, err, ◌>>◌, guard,
}
use tsdproxy.Common.Maps.{Map, Each}
use tsdproxy.Config.{
  TailscaleServerConfig, Data, ConfigError, is_empty, has_oauth_credentials,
  validate_services_provider, validate_provider_oauth_features, validate_provider, validate_each,
  validate_proxy_providers,
}

pub is_empty-true : (t : Text) → (is_empty t ≡ true) ↔ (t ≡ [])
is_empty-true [] = ground arith
is_empty-true (c ∷ t) = ground arith

pub record HasOauth (p : TailscaleServerConfig) : Type 0 where
  pub client_id : is_empty p.client_id ≡ false
  pub secret : (is_empty p.client_secret ≡ false) ⊎ (is_empty p.client_secret_file ≡ false)

-- What a provider of each mode needs.
pub record IsValid (is_positive : Text → Bool) (p : TailscaleServerConfig) : Type 0 where
  pub one_mode : p.shared ≡ true → p.services ≡ false
  pub hostname : (p.shared ≡ true) ⊎ (p.services ≡ true) → is_empty p.hostname ≡ false
  pub services : p.services ≡ true → HasOauth p × (is_empty p.tags ≡ false)
  pub reconciles :
      is_positive p.reconcile_interval ≡ true → HasOauth p ⊎ (p.prevent_duplicates ≡ true)

abbrev pub IsValidEntry : (Text → Bool) → Text → Option TailscaleServerConfig → Type 0
IsValidEntry is_positive k o = (p : TailscaleServerConfig) × (o ≡ some p) × IsValid is_positive p

has_oauth_lem : (p : TailscaleServerConfig) → (has_oauth_credentials p ≡ true) ↔ HasOauth p
unfolding has_oauth_credentials
has_oauth_lem p = ground arith

>>-ok : (m k : Result ConfigError (Unit {0})) → ((m >> k) ≡ ok tt) ↔ ((m ≡ ok tt) × (k ≡ ok tt))
>>-ok (ok tt) k = ground arith
>>-ok (err e) k = ground arith

guard-ok : (b : Bool) (e : ConfigError) → (guard b e ≡ ok tt) ↔ (b ≡ true)
guard-ok true e = ground arith
guard-ok false e = ground arith

services_lem :
    (p : TailscaleServerConfig)
    → (validate_services_provider p ≡ ok tt)
      ↔ (p.services ≡ true → (is_empty p.hostname ≡ false) × HasOauth p × (is_empty p.tags ≡ false))
unfolding validate_services_provider has_oauth_credentials
services_lem p = ground arith

module _ (is_positive : Text → Bool) where
  oauth_lem :
      (p : TailscaleServerConfig)
      → (validate_provider_oauth_features is_positive p ≡ ok tt)
        ↔ (is_positive p.reconcile_interval ≡ true → HasOauth p ⊎ (p.prevent_duplicates ≡ true))
  unfolding validate_provider_oauth_features has_oauth_credentials
  oauth_lem p = ground arith

  -- The checks of one provider, as equations.
  abbrev Checks : TailscaleServerConfig → Type 0
  Checks p =
      ((not (p.shared && p.services) ≡ true) × (not (p.shared && is_empty p.hostname) ≡ true))
      × (validate_services_provider p ≡ ok tt)
      × (validate_provider_oauth_features is_positive p ≡ ok tt)

  checks_lem :
      (p : TailscaleServerConfig) → (validate_provider is_positive (some p) ≡ ok tt) ↔ Checks p
  unfolding validate_provider
  checks_lem p =
      let a = not (p.shared && p.services) in
      let b = not (p.shared && is_empty p.hostname) in
      let s = validate_services_provider p in
      let o = validate_provider_oauth_features is_positive p in
      ground (
        arith,
        >>-ok
            (guard a ConfigError.shared_and_services
              >> guard b ConfigError.shared_without_hostname
              >> s)
            o,
        >>-ok
            (guard a ConfigError.shared_and_services >> guard b ConfigError.shared_without_hostname)
            s,
        >>-ok (guard a ConfigError.shared_and_services)
            (guard b ConfigError.shared_without_hostname),
        guard-ok a ConfigError.shared_and_services,
        guard-ok b ConfigError.shared_without_hostname,
      )

  valid_lem : (p : TailscaleServerConfig) → Checks p ↔ IsValid is_positive p
  valid_lem p = (
    (λ c.
        let s = (services_lem p).0 c.1 in
        record {
          one_mode = ground (arith, c.0.0);
          hostname = λ h. elim h [ inl e ↦ ground (arith, c.0.1, e) | inr e ↦ (s e).0 ];
          services = λ e. ((s e).1, (s e).2);
          reconciles = (oauth_lem p).0 c.2;
        }),
    (λ v. (
      (ground (arith, v.one_mode), ground (arith, v.hostname)),
      (services_lem p).1 (λ e. (v.hostname (inr e), (v.services e).0, (v.services e).1)),
      (oauth_lem p).1 v.reconciles,
    )),
  )

  each_lem :
      (m : Map Text (Option TailscaleServerConfig))
      → (validate_each is_positive m ≡ ok tt) ↔ Each (IsValidEntry is_positive) m
  unfolding validate_each validate_provider
  each_lem [] = ground arith
  each_lem ((k, none) ∷ m) = ((λ h. cc), (λ v. cc (v.0.1)))
  each_lem ((k, some p) ∷ m) =
      let split = >>-ok (validate_provider is_positive (some p)) (validate_each is_positive m) in
      (
        (λ h.
            let (now, rest) = split.0 h in
            ((p, refl, (valid_lem p).0 ((checks_lem p).0 now)), (each_lem m).0 rest)),
        (λ v.
            let (q, same, w) = v.0 in
            let e : p ≡ q = ground (arith, same) in
            let h : IsValid is_positive p = rw e w in
            split.1 ((checks_lem p).1 ((valid_lem p).1 h), (each_lem m).1 v.1)),
      )

  -- The check of the Tailscale providers passes exactly the configurations that have a provider, each of
  -- them set, in one mode at most, with a host name where it is shared or offers services, with OAuth
  -- credentials and tags where it offers services, and with OAuth credentials or the prevention of
  -- duplicates where it reconciles.
  pub validate_proxy_providers_lem :
      (c : Data)
      → (validate_proxy_providers is_positive c ≡ ok tt)
        ↔ ((1 ≤ length c.providers) × Each (IsValidEntry is_positive) c.providers)
  unfolding validate_proxy_providers
  validate_proxy_providers_lem c =
      let b = leb 1 (length c.providers) in
      ground (
        arith,
        >>-ok (guard b ConfigError.no_providers) (validate_each is_positive c.providers),
        guard-ok b ConfigError.no_providers,
        each_lem c.providers,
      )
