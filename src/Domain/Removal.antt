-- ===== src/Domain/Removal.antt =====
-- How a DNS record is taken away again: by the roll-back of a failed set-up, and by the clean-up.
use mathlib.Core.Path.{subst}
use tsdproxy.Common.{
  ◌≡◌, refl, sym, ap, ◌∙◌, Bool, true, false, Option, none, some, if◌then◌else◌, Text, text_Eq,
  Result, ok, err,
}
use tsdproxy.Config.{is_empty}
use tsdproxy.Domain.Lifecycle.{
  status_none, StateTracker, get_status, DnsProvider, TlsProvider, Records, DnsError, setup_dns,
  cleanup_dns, provision_tls, cleanup_tls, cleaned,
}
use tsdproxy.Domain.Setup.{
  SetupError, ClientError, UrlError, tls_setup, no_url, dns_setup, tls_provisioning, Meets,
  configure_tailscale_tls, DomainState, after_provision, after_dns, dns_from, tls_from,
  setup_domain_for_proxy, configure_proxy_domain, cleanup_domain_for_proxy,
}
use tsdproxy.Domain.Outcome.{get-erase}

module _ {ℓ} {W : Type ℓ} (dns : DnsProvider W) (tls : TlsProvider W) (r : Records dns)
    (cleans_tls : Bool) (domain : Text)
    (deletes : (w : W) → (dns.delete_record domain w).0 ≡ true) where
  abbrev pub IsGone : StateTracker → W → Type 0
  IsGone t w = (get_status domain t ≡ status_none) × (r.points_to w domain ≡ none)

  delete-IsGone :
      (t : StateTracker) (w : W) (p : Bool × W)
      → dns.delete_record domain w ≡ p
      → IsGone (cleanup_dns true dns domain t w).1 (cleanup_dns true dns domain t w).2
  unfolding cleanup_dns
  delete-IsGone t w (true, v) e = rw e (
    get-erase domain t,
    ap (λ p. r.points_to p.1 domain) (sym e) ∙ r.after_delete domain w (deletes w),
  )
  delete-IsGone t w (false, v) e = absurd (cc (sym (ap (λ p. p.0) e) ∙ deletes w))

  cleanup_dns-IsGone :
      (t : StateTracker) (w : W)
      → IsGone (cleanup_dns true dns domain t w).1 (cleanup_dns true dns domain t w).2
  cleanup_dns-IsGone t w = delete-IsGone t w (dns.delete_record domain w) refl

  abbrev IsRolledBack : Result SetupError (Unit {0}) × DomainState W → Type 0
  IsRolledBack (ok u, t) = Unit
  IsRolledBack (err (tls_setup e), t) = Unit
  IsRolledBack (err (no_url e), t) = Unit
  IsRolledBack (err (dns_setup e), t) = Unit
  IsRolledBack (err tls_provisioning, t) = IsGone t.dns t.world

  module _ (m : Meets) (live : m.canceled ≡ false) where
    after_provision-IsRolledBack :
        (u : DomainState W) (p : Bool × StateTracker × W)
        → IsRolledBack (after_provision dns tls true cleans_tls domain m p u)
    after_provision-IsRolledBack u (true, t, w) = tt
    after_provision-IsRolledBack u (false, t, w) = rw live (cleanup_dns-IsGone u.dns w)

    after_dns-IsRolledBack :
        (u : DomainState W) (p : Option DnsError × StateTracker × W)
        → IsRolledBack (after_dns dns tls true cleans_tls domain m p u)
    after_dns-IsRolledBack u (some e, t, w) = tt
    after_dns-IsRolledBack u (none, t, w) =
        after_provision-IsRolledBack _ (provision_tls tls domain u.tls w)

    dns_from-IsRolledBack :
        (o : Result UrlError Text) (s : DomainState W)
        → IsRolledBack (dns_from dns tls true cleans_tls domain m o s)
    dns_from-IsRolledBack (err e) s = tt
    dns_from-IsRolledBack (ok h) s =
        after_dns-IsRolledBack _ (setup_dns m.context dns domain h s.dns s.world)

    tls_from-IsRolledBack :
        (o : Result ClientError (Unit {0})) (s : DomainState W)
        → IsRolledBack (tls_from dns tls true cleans_tls domain m o s)
    tls_from-IsRolledBack (err e) s = tt
    tls_from-IsRolledBack (ok u) s = dns_from-IsRolledBack m.host s

    -- If no certificate could be had while the proxy's context is alive, DNS records are to be cleaned up, and the
    -- provider deletes what it is told to, without an error and so that the domain has no record behind it, then
    -- the domain's record is gone and no longer tracked.
    pub setup_domain_for_proxy-rolls_back :
        (s t : DomainState W)
        → setup_domain_for_proxy dns tls true cleans_tls domain m s ≡ (err tls_provisioning, t)
        → IsGone t.dns t.world
    unfolding setup_domain_for_proxy
    setup_domain_for_proxy-rolls_back s t e =
        subst (λ x. IsRolledBack x) e
          (tls_from-IsRolledBack
            (if m.is_tailscale_tls then configure_tailscale_tls m.client else ok tt) s)

  clean-status :
      (t : StateTracker) (w : W) (p : Bool × W)
      → p.0 ≡ true
      → get_status domain (cleaned domain t p).1 ≡ status_none
  clean-status t w (true, v) h = get-erase domain t
  clean-status t w (false, v) h = absurd (cc h)

  cleanup_tls-status :
      (b : Bool) (t : StateTracker) (w : W)
      → ((v : W) → (tls.cleanup domain v).0 ≡ true)
      → get_status domain (cleanup_tls b tls domain t w).1
        ≡ (if b then status_none else get_status domain t)
  unfolding cleanup_tls
  cleanup_tls-status true t w cleans = clean-status t w (tls.cleanup domain w) (cleans w)
  cleanup_tls-status false t w cleans = refl

  -- However the set-up of a domain ended, the clean-up leaves no record of it, no status of it in the DNS tracker
  -- and for the proxy, and none in the TLS tracker if certificates are to be cleaned up, else the one there was.
  -- The condition is that the domain has a name, that DNS records are to be cleaned up, that both providers clean
  -- up without an error when they are told to, and that a domain has no record behind its deletion.
  pub cleanup-setup :
      (m : Meets) (s : DomainState W)
      → is_empty domain ≡ false
      → ((w : W) → (tls.cleanup domain w).0 ≡ true)
      → let after = configure_proxy_domain dns tls true cleans_tls domain m s in
        let t = cleanup_domain_for_proxy dns tls true cleans_tls domain after in
        IsGone t.dns t.world
        × (t.dns_status ≡ status_none)
        × (t.tls_status ≡ status_none)
        × (get_status domain t.tls
            ≡ (if cleans_tls then status_none else get_status domain after.tls))
  unfolding cleanup_domain_for_proxy
  cleanup-setup m s e cleans =
      let after = configure_proxy_domain dns tls true cleans_tls domain m s in
      rw e (
        cleanup_dns-IsGone after.dns (cleanup_tls cleans_tls tls domain after.tls after.world).2,
        refl,
        refl,
        cleanup_tls-status cleans_tls after.tls after.world cleans,
      )
