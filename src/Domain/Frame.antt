-- ===== src/Domain/Frame.antt =====
-- The set-up and the clean-up of one domain do not touch another.
use tsdproxy.Common.{
  ◌≡◌, ◌≢◌, refl, ◌∙◌, Bool, true, false, Option, none, some, arith, if◌then◌else◌, if_both, Text,
  text_Eq, text_eq_iff, Result, ok, err,
}
use tsdproxy.Common.Maps.{insert, erase, lookup-insert, lookup-erase}
use tsdproxy.Retry.{Outcome, success, context_error, retries_exceeded, retry}
use tsdproxy.Config.{is_empty}
use tsdproxy.Domain.Lifecycle.{
  Status, status_pending, status_active, status_error, StateTracker, get_status, DnsProvider,
  TlsProvider, Context, DnsError, setup_dns, cleanup_dns, provision_tls, cleanup_tls, propagated,
  created, deleted, cleaned, provisioned, attempts, dns_validation_retries, dns_validation_interval,
}
use tsdproxy.Domain.Setup.{
  ClientError, UrlError, Meets, configure_tailscale_tls, DomainState, roll_back, after_provision,
  after_dns, dns_from, tls_from, setup_domain_for_proxy, cleanup_domain_for_proxy,
}

other-insert :
    (domain other : Text) (st : Status) (t : StateTracker)
    → other ≢ domain
    → get_status other (insert domain st t) ≡ get_status other t
unfolding get_status
other-insert domain other st t h =
    ground (arith, lookup-insert domain other st t, text_eq_iff domain other)

other-erase :
    (domain other : Text) (t : StateTracker)
    → other ≢ domain
    → get_status other (erase domain t) ≡ get_status other t
unfolding get_status
other-erase domain other t h = ground (arith, lookup-erase domain other t, text_eq_iff domain other)

module _ {ℓ} {W : Type ℓ} (dns : DnsProvider W) (tls : TlsProvider W) (cleans_dns cleans_tls : Bool)
    (domain other : Text) (apart : other ≢ domain) where
  abbrev pub IsUntouched : DomainState W → DomainState W → Type 0
  IsUntouched s t =
      (get_status other t.dns ≡ get_status other s.dns)
      × (get_status other t.tls ≡ get_status other s.tls)

  -- One tracker.
  abbrev Keeps : StateTracker → StateTracker → Type 0
  Keeps t u = get_status other u ≡ get_status other t

  other-insert_pending :
      (st : Status) (t : StateTracker)
      → get_status other (insert domain st (insert domain status_pending t)) ≡ get_status other t
  other-insert_pending st t =
      other-insert domain other st _ apart ∙ other-insert domain other status_pending t apart

  deleted-Keeps : (t : StateTracker) (p : Bool × W) → Keeps t (deleted domain t p).1
  deleted-Keeps t (true, w) = other-erase domain other t apart
  deleted-Keeps t (false, w) = refl

  cleaned-Keeps : (t : StateTracker) (p : Bool × W) → Keeps t (cleaned domain t p).1
  cleaned-Keeps t (true, w) = other-erase domain other t apart
  cleaned-Keeps t (false, w) = refl

  provisioned-Keeps :
      (t : StateTracker) (p : Bool × W)
      → Keeps t (provisioned domain (insert domain status_pending t) p).1
  provisioned-Keeps t (true, w) = other-insert_pending status_active t
  provisioned-Keeps t (false, w) = other-insert_pending status_error t

  cleanup_dns-Keeps :
      (b : Bool) (t : StateTracker) (w : W) → Keeps t (cleanup_dns b dns domain t w).1
  unfolding cleanup_dns
  cleanup_dns-Keeps false t w = refl
  cleanup_dns-Keeps true t w = deleted-Keeps t (dns.delete_record domain w)

  cleanup_tls-Keeps :
      (b : Bool) (t : StateTracker) (w : W) → Keeps t (cleanup_tls b tls domain t w).1
  unfolding cleanup_tls
  cleanup_tls-Keeps false t w = refl
  cleanup_tls-Keeps true t w = cleaned-Keeps t (tls.cleanup domain w)

  provision-Keeps : (t : StateTracker) (w : W) → Keeps t (provision_tls tls domain t w).1
  unfolding provision_tls
  provision-Keeps t w = provisioned-Keeps t (tls.provision domain w)

  propagated-Keeps :
      (o : Outcome) (t : StateTracker) (w : W)
      → Keeps t (propagated o domain (insert domain status_pending t) w).1
  propagated-Keeps success t w = other-insert_pending status_active t
  propagated-Keeps context_error t w = other-insert_pending status_error t
  propagated-Keeps retries_exceeded t w = other-insert_pending status_error t

  created-Keeps :
      (ctx : Context) (h : Text) (t : StateTracker) (p : Bool × W)
      → Keeps t (created ctx dns domain h (insert domain status_pending t) p).1
  created-Keeps ctx h t (true, w) =
      propagated-Keeps
        (retry (attempts ctx dns domain h w) dns_validation_retries dns_validation_interval).outcome
        t w
  created-Keeps ctx h t (false, w) = other-insert_pending status_error t

  setup_dns-Keeps :
      (ctx : Context) (h : Text) (t : StateTracker) (w : W)
      → Keeps t (setup_dns ctx dns domain h t w).1
  unfolding setup_dns
  setup_dns-Keeps ctx h t w = created-Keeps ctx h t (dns.create_record domain h w)

  roll_back-IsUntouched :
      (b : Bool) (s u : DomainState W)
      → IsUntouched s u
      → IsUntouched s (roll_back dns tls cleans_dns cleans_tls domain b u)
  roll_back-IsUntouched true s u h = h
  roll_back-IsUntouched false s u (a, b) = (cleanup_dns-Keeps cleans_dns u.dns u.world ∙ a, b)

  after_provision-IsUntouched :
      (m : Meets) (s u : DomainState W) (p : Bool × StateTracker × W)
      → IsUntouched s (record u { tls = p.1; world = p.2 })
      → IsUntouched s (after_provision dns tls cleans_dns cleans_tls domain m p u).1
  after_provision-IsUntouched m s u (true, t, w) h = h
  after_provision-IsUntouched m s u (false, t, w) h =
      roll_back-IsUntouched m.canceled s
        (record u { tls = t; world = w; tls_status = status_error }) h

  after_dns-IsUntouched :
      (m : Meets) (s u : DomainState W) (p : Option DnsError × StateTracker × W)
      → IsUntouched s (record u { dns = p.1; world = p.2 })
      → IsUntouched s (after_dns dns tls cleans_dns cleans_tls domain m p u).1
  after_dns-IsUntouched m s u (some e, t, w) h = h
  after_dns-IsUntouched m s u (none, t, w) (a, b) =
      after_provision-IsUntouched m s
        (record u { dns = t; world = w; dns_status = status_active; tls_status = status_pending })
        (provision_tls tls domain u.tls w) (a, provision-Keeps u.tls w ∙ b)

  dns_from-IsUntouched :
      (m : Meets) (s : DomainState W) (o : Result UrlError Text)
      → IsUntouched s (dns_from dns tls cleans_dns cleans_tls domain m o s).1
  dns_from-IsUntouched m s (err e) = (refl, refl)
  dns_from-IsUntouched m s (ok h) =
      after_dns-IsUntouched m s (record s { dns_status = status_pending })
        (setup_dns m.context dns domain h s.dns s.world)
        (setup_dns-Keeps m.context h s.dns s.world, refl)

  tls_from-IsUntouched :
      (m : Meets) (s : DomainState W) (o : Result ClientError (Unit {0}))
      → IsUntouched s (tls_from dns tls cleans_dns cleans_tls domain m o s).1
  tls_from-IsUntouched m s (err e) = (refl, refl)
  tls_from-IsUntouched m s (ok u) = dns_from-IsUntouched m s m.host

  -- Neither the set-up of a domain nor its clean-up, whatever the providers answer, changes the statuses that the
  -- two trackers have of a domain of another name.
  pub setup-cleanup-IsUntouched :
      (m : Meets) (s : DomainState W)
      → IsUntouched s (setup_domain_for_proxy dns tls cleans_dns cleans_tls domain m s).1
        × IsUntouched s (cleanup_domain_for_proxy dns tls cleans_dns cleans_tls domain s)
  unfolding setup_domain_for_proxy cleanup_domain_for_proxy
  setup-cleanup-IsUntouched m s =
      let world = (cleanup_tls cleans_tls tls domain s.tls s.world).2 in
      (
        tls_from-IsUntouched m s
            (if m.is_tailscale_tls then configure_tailscale_tls m.client else ok tt),
        if_both {A = DomainState W} (IsUntouched s) (is_empty domain) (λ e. (refl, refl))
            (λ n. (
              cleanup_dns-Keeps cleans_dns s.dns world,
              cleanup_tls-Keeps cleans_tls s.tls s.world,
            )),
      )
