-- ===== src/Domain/Outcome.antt =====
-- What a set-up of a domain leaves behind, in success and in each of its errors.
use tsdproxy.Common.{
  ℕ, ◌+◌, ◌≤◌, ◌≡◌, refl, sym, ap, ◌∙◌, Bool, true, false, arith, if◌then◌else◌, Text, text_Eq,
  text_eq_iff, Result, ok, err,
}
use tsdproxy.Common.Maps.{insert, erase, lookup-insert, lookup-erase}
use tsdproxy.Retry.{Outcome, success, context_error, retries_exceeded, retry}
use tsdproxy.Retry.Attempts.{retry-IsRetried}
use tsdproxy.Domain.Lifecycle.{
  Status, status_none, status_pending, status_active, status_error, StateTracker, get_status,
  DnsProvider, TlsProvider, Context, is_validated, setup_dns, provision_tls, propagated, attempts,
  dns_validation_retries, dns_validation_interval,
}
use tsdproxy.Domain.Setup.{
  SetupError, ClientError, UrlError, tls_setup, no_url, dns_setup, tls_provisioning, Meets,
  configure_tailscale_tls, DomainState, roll_back, provision_from, after_dns, dns_from, tls_from,
  setup_domain_for_proxy,
}

pub get-insert :
    (domain : Text) (st : Status) (t : StateTracker) → get_status domain (insert domain st t) ≡ st
unfolding get_status
get-insert domain st t = ground (arith, lookup-insert domain domain st t, text_eq_iff domain domain)

pub get-erase :
    (domain : Text) (t : StateTracker) → get_status domain (erase domain t) ≡ status_none
unfolding get_status
get-erase domain t = ground (arith, lookup-erase domain domain t, text_eq_iff domain domain)

module _ {ℓ} {W : Type ℓ} (dns : DnsProvider W) (tls : TlsProvider W) (cleans_dns cleans_tls : Bool)
    (domain : Text) where
  -- Both providers did what they were called for, beginning in the world `w`: the DNS provider took the record
  -- and found it in one of the attempts, and the TLS provider had a certificate behind that.
  pub record IsServed (w : W) (h : Text) : Type ℓ where
    pub created : (dns.create_record domain h w).0 ≡ true
    pub attempt : ℕ
    pub in_time : attempt ≤ dns_validation_retries
    pub validated :
        is_validated (dns.validate_record domain h (dns.create_record domain h w).1 attempt) ≡ true
    pub certified : (tls.provision domain (dns.create_record domain h w).1).0 ≡ true

  -- The domain is up: all four statuses say so, and the providers served it for the host of the URL.
  pub record IsUp (host : Result UrlError Text) (s t : DomainState W) : Type ℓ where
    pub dns_active : t.dns_status ≡ status_active
    pub tls_active : t.tls_status ≡ status_active
    pub dns_tracked : get_status domain t.dns ≡ status_active
    pub tls_tracked : get_status domain t.tls ≡ status_active
    pub served : (h : Text) × (host ≡ ok h) × IsServed s.world h

  pub record IsDnsFailure (s t : DomainState W) : Type ℓ where
    pub dns_failed : t.dns_status ≡ status_error
    pub dns_tracked : get_status domain t.dns ≡ status_error
    pub tls_kept : (t.tls_status ≡ s.tls_status) × (t.tls ≡ s.tls)

  pub record IsTlsFailure (t : DomainState W) : Type ℓ where
    pub dns_failed : t.dns_status ≡ status_error
    pub tls_failed : t.tls_status ≡ status_error
    pub tls_tracked : get_status domain t.tls ≡ status_error

  abbrev pub IsOutcome :
      Meets → DomainState W → Result SetupError (Unit {0}) × DomainState W → Type ℓ
  IsOutcome m s (ok u, t) = IsUp m.host s t
  IsOutcome m s (err (dns_setup e), t) = IsDnsFailure s t
  IsOutcome m s (err tls_provisioning, t) = IsTlsFailure t
  IsOutcome m s (err (tls_setup e), t) = t ≡ s
  IsOutcome m s (err (no_url e), t) = t ≡ s

  -- `roll_back` keeps what it is not about.
  roll_back-IsTlsFailure :
      (b : Bool) (u : DomainState W)
      → u.tls_status ≡ status_error
      → get_status domain u.tls ≡ status_error
      → IsTlsFailure (roll_back dns tls cleans_dns cleans_tls domain b u)
  roll_back-IsTlsFailure true u e f = record { dns_failed = refl; tls_failed = e; tls_tracked = f }
  roll_back-IsTlsFailure false u e f = record { dns_failed = refl; tls_failed = e; tls_tracked = f }

  after_provision-IsOutcome :
      (m : Meets) (s u : DomainState W) (h : Text) (p : Bool × W)
      → tls.provision domain u.world ≡ p
      → u.dns_status ≡ status_active
      → get_status domain u.dns ≡ status_active
      → m.host ≡ ok h
      → ((tls.provision domain u.world).0 ≡ true → IsServed s.world h)
      → IsOutcome m s (provision_from dns tls cleans_dns cleans_tls domain m u)
  unfolding provision_tls
  after_provision-IsOutcome m s u h (true, w) e a b f g = rw e (record {
    dns_active = a;
    tls_active = refl;
    dns_tracked = b;
    tls_tracked = get-insert domain status_active _;
    served = (h, f, g (ap (λ p. p.0) e));
  })
  after_provision-IsOutcome m s u h (false, w) e a b f g =
      rw e (roll_back-IsTlsFailure m.canceled _ refl (get-insert domain status_error _))

  propagated-IsOutcome :
      (m : Meets) (s u : DomainState W) (h : Text) (o : Outcome) (w : W)
      → m.host ≡ ok h
      → (o ≡ success → (tls.provision domain w).0 ≡ true → IsServed s.world h)
      → u.tls_status ≡ s.tls_status
      → u.tls ≡ s.tls
      → IsOutcome m s (
          after_dns dns tls cleans_dns cleans_tls domain m
            (propagated o domain (insert domain status_pending u.dns) w)
            u)
  propagated-IsOutcome m s u h success w f g a b =
      after_provision-IsOutcome m s
        (record u {
          dns = insert domain status_active (insert domain status_pending u.dns);
          world = w;
          dns_status = status_active;
        })
        h (tls.provision domain w) refl refl (get-insert domain status_active _) f (g refl)
  propagated-IsOutcome m s u h context_error w f g a b = record {
    dns_failed = refl;
    dns_tracked = get-insert domain status_error _;
    tls_kept = (a, b);
  }
  propagated-IsOutcome m s u h retries_exceeded w f g a b = record {
    dns_failed = refl;
    dns_tracked = get-insert domain status_error _;
    tls_kept = (a, b);
  }

  served :
      (s : W) (h : Text) (w : W)
      → dns.create_record domain h s ≡ (true, w)
      → (ctx : Context)
      → (retry (attempts ctx dns domain h w) dns_validation_retries dns_validation_interval).outcome
        ≡ success
      → (tls.provision domain w).0 ≡ true
      → IsServed s h
  served s h w e ctx o c =
      let retried =
        retry-IsRetried (attempts ctx dns domain h w) dns_validation_retries dns_validation_interval
          (omega arith) (omega arith) in
      let (i, calls, good) = retried.succeeded o in
      record {
        created = ap (λ p. p.0) e;
        attempt = 0 + i;
        in_time = omega (arith, calls, retried.bounded);
        validated = rw e good;
        certified = rw e c;
      }

  created-IsOutcome :
      (m : Meets) (s u : DomainState W) (h : Text) (p : Bool × W)
      → dns.create_record domain h u.world ≡ p
      → u.world ≡ s.world
      → m.host ≡ ok h
      → u.tls_status ≡ s.tls_status
      → u.tls ≡ s.tls
      → IsOutcome m s (
          after_dns dns tls cleans_dns cleans_tls domain m
            (setup_dns m.context dns domain h u.dns u.world)
            u)
  unfolding setup_dns
  created-IsOutcome m s u h (true, w) e same f a b = rw e (
      propagated-IsOutcome m s u h
        (retry (attempts m.context dns domain h w) dns_validation_retries
          dns_validation_interval).outcome
        w f
        (λ o c. served s.world h w (ap (dns.create_record domain h) (sym same) ∙ e) m.context o c) a
        b)
  created-IsOutcome m s u h (false, w) e same f a b = rw e (record {
    dns_failed = refl;
    dns_tracked = get-insert domain status_error _;
    tls_kept = (a, b);
  })

  dns_from-IsOutcome :
      (m : Meets) (s : DomainState W) (o : Result UrlError Text)
      → m.host ≡ o
      → IsOutcome m s (dns_from dns tls cleans_dns cleans_tls domain m o s)
  dns_from-IsOutcome m s (err e) f = refl
  dns_from-IsOutcome m s (ok h) f =
      created-IsOutcome m s (record s { dns_status = status_pending }) h
        (dns.create_record domain h s.world) refl refl f refl refl

  tls_from-IsOutcome :
      (m : Meets) (s : DomainState W) (o : Result ClientError (Unit {0}))
      → IsOutcome m s (tls_from dns tls cleans_dns cleans_tls domain m o s)
  tls_from-IsOutcome m s (err e) = refl
  tls_from-IsOutcome m s (ok u) = dns_from-IsOutcome m s m.host refl

  -- After a set-up that returns no error, the domain is active in both trackers and for the proxy, the DNS
  -- provider took a record to the host of the proxy's URL and found it in one of its eleven attempts at most, and
  -- the TLS provider then had a certificate. After an error of the DNS set-up, both its tracker and the proxy
  -- have the error, and nothing of TLS changed; after one of the TLS provider, the proxy has it for both. After
  -- an earlier error nothing changed at all.
  pub setup_domain_for_proxy-IsOutcome :
      (m : Meets) (s : DomainState W)
      → IsOutcome m s (setup_domain_for_proxy dns tls cleans_dns cleans_tls domain m s)
  unfolding setup_domain_for_proxy
  setup_domain_for_proxy-IsOutcome m s =
      tls_from-IsOutcome m s
        (if m.is_tailscale_tls then configure_tailscale_tls m.client else ok tt)
