-- ===== src/Domain/Setup.antt =====
-- The set-up and the clean-up of one proxy's domain: internal/proxymanager/domain.go. What
-- `configureTailscaleTLS` stores in the TLS provider, and the certificate's expiry, which is only a metric,
-- are left out.
use tsdproxy.Common.{
  Bool, true, false, List, [], ◌∷◌, Option, none, some, if◌then◌else◌, Text, text_Eq, Result, ok,
  err,
}
use tsdproxy.Config.{is_empty}
use tsdproxy.Domain.Lifecycle.{
  Status, status_none, status_pending, status_active, status_error, StateTracker, DnsProvider,
  TlsProvider, Context, DnsError, setup_dns, cleanup_dns, provision_tls, cleanup_tls,
}

-- What the proxy provider's `GetLocalClient` gives: it has no such method, nil, or a client.
pub data LocalClient : Type 0 where
  no_client_method nil_client local_client : LocalClient

pub data ClientError : Type 0 where
  tls_needs_tailscale tls_client_missing : ClientError

pub data UrlError : Type 0 where
  url_empty url_unparsable url_without_host url_canceled url_timeout : UrlError

pub data SetupError : Type 0 where
  tls_setup : ClientError → SetupError
  no_url : UrlError → SetupError
  dns_setup : DnsError → SetupError
  tls_provisioning : SetupError

unfoldable pub configure_tailscale_tls : LocalClient → Result ClientError (Unit {0})
configure_tailscale_tls no_client_method = err tls_needs_tailscale
configure_tailscale_tls nil_client = err tls_client_missing
configure_tailscale_tls local_client = ok tt

-- The host of `url.Parse`, none on an error.
module _ (parse_host : Text → Option Text) where
  abbrev pub nonempty_host : Option Text → Result UrlError Text
  nonempty_host none = err url_unparsable
  nonempty_host (some host) = if is_empty host then err url_without_host else ok host

  unfoldable pub extract_host : Text → Result UrlError Text
  extract_host url = if is_empty url then err url_empty else nonempty_host (parse_host url)

  -- What wakes the loop before its time is over, with the URL that the proxy then has.
  pub data Wakeup : Type 0 where
    url_ready tick : Text → Wakeup
    context_done : Wakeup

  abbrev pub or_wait : Result UrlError Text → Result UrlError Text → Result UrlError Text
  or_wait (ok host) later = ok host
  or_wait (err e) later = later

  -- The loop; the time is over behind the last of the wake-ups.
  unfoldable pub wait_loop : List Wakeup → Result UrlError Text
  unfolding extract_host
  wait_loop [] = err url_timeout
  wait_loop (url_ready url ∷ ws) = extract_host url
  wait_loop (tick url ∷ ws) = or_wait (extract_host url) (wait_loop ws)
  wait_loop (context_done ∷ ws) = err url_canceled

  unfoldable pub wait_for_proxy_url : Text → List Wakeup → Result UrlError Text
  unfolding extract_host wait_loop
  wait_for_proxy_url url ws = or_wait (extract_host url) (wait_loop ws)

-- The two trackers, the proxy's own statuses and error, and the world of the providers.
pub record DomainState {ℓ} (W : Type ℓ) : Type ℓ where
  pub dns : StateTracker
  pub tls : StateTracker
  pub dns_status : Status
  pub tls_status : Status
  pub domain_error : Option SetupError
  pub world : W

-- What a set-up meets: the contexts of the validation, the state of its context after a failed
-- provisioning, its client, and in `host` what `wait_for_proxy_url` gave.
pub record Meets : Type 0 where
  pub is_tailscale_tls : Bool
  pub client : LocalClient
  pub host : Result UrlError Text
  pub context : Context
  pub canceled : Bool

module _ {ℓ} {W : Type ℓ} (dns : DnsProvider W) (tls : TlsProvider W) (cleans_dns cleans_tls : Bool)
    (domain : Text) where
  abbrev pub rolled_back : Option DnsError × StateTracker × W → DomainState W → DomainState W
  rolled_back (e, t, w) s = record s { dns = t; world = w; dns_status = status_error }

  abbrev pub roll_back : Bool → DomainState W → DomainState W
  roll_back true s = record s { dns_status = status_error }
  roll_back false s = rolled_back (cleanup_dns cleans_dns dns domain s.dns s.world) s

  abbrev pub after_provision :
      Meets → Bool × StateTracker × W → DomainState W → Result SetupError (Unit {0}) × DomainState W
  after_provision m (true, t, w) s =
      (ok tt, record s { tls = t; world = w; tls_status = status_active })
  after_provision m (false, t, w) s = (
    err tls_provisioning,
    roll_back m.canceled (record s { tls = t; world = w; tls_status = status_error }),
  )

  abbrev pub provision_from : Meets → DomainState W → Result SetupError (Unit {0}) × DomainState W
  provision_from m s =
      let pending = record s { tls_status = status_pending } in
      after_provision m (provision_tls tls domain pending.tls pending.world) pending

  abbrev pub after_dns :
      Meets
      → Option DnsError × StateTracker × W
      → DomainState W
      → Result SetupError (Unit {0}) × DomainState W
  after_dns m (some e, t, w) s =
      (err (dns_setup e), record s { dns = t; world = w; dns_status = status_error })
  after_dns m (none, t, w) s =
      provision_from m (record s { dns = t; world = w; dns_status = status_active })

  abbrev pub dns_from :
      Meets → Result UrlError Text → DomainState W → Result SetupError (Unit {0}) × DomainState W
  dns_from m (err e) s = (err (no_url e), s)
  dns_from m (ok host) s =
      let pending = record s { dns_status = status_pending } in
      after_dns m (setup_dns m.context dns domain host pending.dns pending.world) pending

  abbrev pub tls_from :
      Meets
      → Result ClientError (Unit {0})
      → DomainState W
      → Result SetupError (Unit {0}) × DomainState W
  tls_from m (err e) s = (err (tls_setup e), s)
  tls_from m (ok u) s = dns_from m m.host s

  unfoldable pub setup_domain_for_proxy :
      Meets → DomainState W → Result SetupError (Unit {0}) × DomainState W
  unfolding configure_tailscale_tls
  setup_domain_for_proxy m s =
      tls_from m (if m.is_tailscale_tls then configure_tailscale_tls m.client else ok tt) s

  abbrev pub with_error : Result SetupError (Unit {0}) × DomainState W → DomainState W
  with_error (ok u, s) = s
  with_error (err e, s) = record s { domain_error = some e }

  -- The goroutine of `configureProxyDomain`.
  unfoldable pub configure_proxy_domain : Meets → DomainState W → DomainState W
  configure_proxy_domain m s = with_error (setup_domain_for_proxy m s)

  abbrev pub dns_cleaned : Option DnsError × StateTracker × W → DomainState W → DomainState W
  dns_cleaned (e, t, w) s = record s {
    dns = t;
    world = w;
    dns_status = status_none;
    tls_status = status_none;
  }

  abbrev pub tls_cleaned : Bool × StateTracker × W → DomainState W → DomainState W
  tls_cleaned (b, t, w) s =
      dns_cleaned (cleanup_dns cleans_dns dns domain s.dns w) (record s { tls = t; world = w })

  -- For a proxy that has both providers.
  unfoldable pub cleanup_domain_for_proxy : DomainState W → DomainState W
  cleanup_domain_for_proxy s =
      if is_empty domain then s else tls_cleaned (cleanup_tls cleans_tls tls domain s.tls s.world) s
