-- ===== src/Domain/Tests.antt =====
-- A DNS zone as a table, a maker of certificates that works and one that does not, and the theorems applied there.
use tsdproxy.Common.{
  ℕ, ◌≡◌, ◌≢◌, refl, Bool, true, false, [], ◌∷◌, Option, none, some, arith, Text, text_eq, text_Eq,
  text_eq_iff, Result, ok, err,
}
use tsdproxy.Common.Maps.{Map, lookup, insert, erase, lookup-erase}
use tsdproxy.Strings.{codes}
use tsdproxy.Retry.{retry, retry_from}
use tsdproxy.Domain.Lifecycle.{
  status_none, status_error, DnsProvider, TlsProvider, Records, setup_dns, provision_tls,
  cleanup_dns, get_status,
}
use tsdproxy.Domain.Setup.{
  SetupError, tls_provisioning, Meets, local_client, configure_tailscale_tls, DomainState,
  setup_domain_for_proxy, configure_proxy_domain, cleanup_domain_for_proxy, tick,
  wait_for_proxy_url,
}
use tsdproxy.Domain.Outcome.{IsOutcome, setup_domain_for_proxy-IsOutcome}
use tsdproxy.Domain.Frame.{IsUntouched, setup-cleanup-IsUntouched}
use tsdproxy.Domain.Removal.{IsGone, setup_domain_for_proxy-rolls_back, cleanup-setup}
use tsdproxy.Domain.Choice.{DomainConfig, resolve_for, prepare_domain_setup, skips, prepare-resolve}

abbrev Zone : Type 0
Zone = Map Text Text

abbrev is_at : Text → Option Text → Option Bool
is_at host none = none
is_at host (some h) = some (text_eq h host)

abbrev table : DnsProvider Zone
table = record {
  create_record = λ domain host w. (true, insert domain host w);
  delete_record = λ domain w. (true, erase domain w);
  validate_record = λ domain host w i. is_at host (lookup domain w);
}

abbrev maker : Bool → TlsProvider Zone
maker works = record { provision = λ domain w. (works, w); cleanup = λ domain w. (true, w) }

table_records : Records table
table_records = record {
  points_to = λ w domain. lookup domain w;
  after_delete =
      λ domain w h. ground (arith, lookup-erase domain domain w, text_eq_iff domain domain);
}

abbrev site : Text
site = codes "app.example.org"

abbrev node : Text
node = codes "app.tail1.ts.net"

abbrev fresh : DomainState Zone
fresh = record {
  dns = [];
  tls = [];
  dns_status = status_none;
  tls_status = status_none;
  domain_error = none;
  world = [];
}

abbrev meets : Meets
meets = record {
  is_tailscale_tls = true;
  client = local_client;
  host = ok node;
  context = record { canceled = λ i. false; canceled_waiting = λ i. false };
  canceled = false;
}

abbrev outcome : Bool → Result SetupError (Unit {0}) × DomainState Zone
outcome works = setup_domain_for_proxy table (maker works) true true site meets fresh

-- A working maker gives a set-up without an error, one that fails gives its error.
succeeds : (outcome true).0 ≡ ok tt
unfolding setup_domain_for_proxy configure_tailscale_tls setup_dns provision_tls retry retry_from
    insert lookup
succeeds = refl

abbrev state_after_failure : DomainState Zone
state_after_failure = record {
  dns = [];
  tls = (site, status_error) ∷ [];
  dns_status = status_error;
  tls_status = status_error;
  domain_error = none;
  world = [];
}

fails : outcome false ≡ (err tls_provisioning, state_after_failure)
unfolding setup_domain_for_proxy configure_tailscale_tls setup_dns provision_tls cleanup_dns retry
    retry_from insert lookup erase
fails = refl

apart : node ≢ site
apart h = cc ((text_eq_iff node site).1 h)

setup_domain_for_proxy-IsOutcome_example :
    IsOutcome table (maker true) true true site meets fresh (outcome true)
setup_domain_for_proxy-IsOutcome_example =
    setup_domain_for_proxy-IsOutcome table (maker true) true true site meets fresh

setup_domain_for_proxy-rolls_back_example :
    IsGone table
      (maker false)
      table_records
      true
      site
      (λ w. refl)
      state_after_failure.dns
      state_after_failure.world
setup_domain_for_proxy-rolls_back_example =
    setup_domain_for_proxy-rolls_back table (maker false) table_records true site (λ w. refl) meets
      refl fresh state_after_failure fails

setup-cleanup-IsUntouched_example :
    IsUntouched table (maker true) true true site node apart fresh (outcome true).1
    × IsUntouched table
        (maker true)
        true
        true
        site
        node
        apart
        fresh
        (cleanup_domain_for_proxy table (maker true) true true site fresh)
setup-cleanup-IsUntouched_example =
    setup-cleanup-IsUntouched table (maker true) true true site node apart meets fresh

cleanup-setup_example :
    let after = configure_proxy_domain table (maker false) true true site meets fresh in
    let t = cleanup_domain_for_proxy table (maker false) true true site after in
    IsGone table (maker false) table_records true site (λ w. refl) t.dns t.world
    × (t.dns_status ≡ status_none)
    × (t.tls_status ≡ status_none)
    × (get_status site t.tls ≡ status_none)
cleanup-setup_example =
    cleanup-setup table (maker false) table_records true site (λ w. refl) meets fresh refl
      (λ w. refl)

abbrev named : DomainConfig
named = record {
  domain = site;
  dns_provider = codes "cf";
  tls_provider = codes "tailscale";
  default_dns = [];
  default_tls = [];
  tls_configured = [];
  tls_global = [];
}

prepare-resolve_example :
    prepare_domain_setup {D = ℕ} {A = ℕ} (λ d. true) (λ c d. none) [] named
    ≡ skips {D = ℕ} {A = ℕ}
        (λ d. true)
        (λ c d. none)
        (resolve_for {D = ℕ} {A = ℕ} (λ d. true) (λ c d. none) [] named)
prepare-resolve_example = prepare-resolve {D = ℕ} {A = ℕ} (λ d. true) (λ c d. none) [] named

-- A proxy whose URL comes with the second tick.
waits_for_url :
    wait_for_proxy_url (λ url. some (codes "h")) [] (tick [] ∷ tick (codes "u") ∷ [])
    ≡ ok (codes "h")
unfolding wait_for_proxy_url
waits_for_url = refl
