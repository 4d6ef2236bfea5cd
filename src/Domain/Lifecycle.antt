-- ===== src/Domain/Lifecycle.antt =====
-- The status of each domain and the calls of its DNS and TLS provider: internal/lifecycle/tracker.go,
-- internal/dnsproviders/lifecycle.go and internal/tlsproviders/lifecycle.go.
use tsdproxy.Common.{ℕ, ◌*◌, ◌≡◌, Bool, true, false, [], Option, none, some, Text, text_Eq}
use tsdproxy.Common.Maps.{Map, lookup, insert, erase}
use tsdproxy.Health.{second}
use tsdproxy.Retry.{Surroundings, Outcome, success, context_error, retries_exceeded, retry}

pub data Status : Type 0 where
  status_none status_pending status_active status_error : Status

abbrev pub StateTracker : Type 0
StateTracker = Map Text Status

abbrev pub new_state_tracker : StateTracker
new_state_tracker = []

abbrev pub or_no_status : Option Status → Status
or_no_status none = status_none
or_no_status (some s) = s

unfoldable pub get_status : Text → StateTracker → Status
get_status domain t = or_no_status (lookup domain t)

-- A DNS provider acts on a world `W`, which also tells what it answers to the validation of each attempt.
pub record DnsProvider {ℓ} (W : Type ℓ) : Type ℓ where
  pub create_record : Text → Text → W → Bool × W
  pub delete_record : Text → W → Bool × W
  pub validate_record : Text → Text → W → ℕ → Option Bool

pub record TlsProvider {ℓ} (W : Type ℓ) : Type ℓ where
  pub provision : Text → W → Bool × W
  pub cleanup : Text → W → Bool × W

-- When the context of a call ends: before an attempt, or in the wait behind it.
pub record Context : Type 0 where
  pub canceled : ℕ → Bool
  pub canceled_waiting : ℕ → Bool

pub data DnsError : Type 0 where
  create_failed delete_failed : DnsError
  not_propagated : Outcome → DnsError

abbrev pub dns_validation_retries : ℕ
dns_validation_retries = 10

abbrev pub dns_validation_interval : ℕ
dns_validation_interval = 2 * second

-- The operation that is retried succeeds when the record is there.
abbrev pub is_validated : Option Bool → Bool
is_validated none = false
is_validated (some ok) = ok

module _ {ℓ} {W : Type ℓ} where
  abbrev pub attempts : Context → DnsProvider W → Text → Text → W → Surroundings
  attempts ctx p domain host w = record {
    canceled = ctx.canceled;
    succeeds = λ i. is_validated (p.validate_record domain host w i);
    canceled_waiting = ctx.canceled_waiting;
  }

  abbrev pub propagated : Outcome → Text → StateTracker → W → Option DnsError × StateTracker × W
  propagated success domain t w = (none, insert domain status_active t, w)
  propagated context_error domain t w =
      (some (not_propagated context_error), insert domain status_error t, w)
  propagated retries_exceeded domain t w =
      (some (not_propagated retries_exceeded), insert domain status_error t, w)

  abbrev pub created :
      Context
      → DnsProvider W
      → Text
      → Text
      → StateTracker
      → Bool × W
      → Option DnsError × StateTracker × W
  created ctx p domain host t (false, w) = (some create_failed, insert domain status_error t, w)
  created ctx p domain host t (true, w) =
      propagated
        (retry (attempts ctx p domain host w) dns_validation_retries
          dns_validation_interval).outcome
        domain t w

  -- The error, if there is one, the tracker and the world.
  unfoldable pub setup_dns :
      Context → DnsProvider W → Text → Text → StateTracker → W → Option DnsError × StateTracker × W
  setup_dns ctx p domain host t w =
      created ctx p domain host (insert domain status_pending t) (p.create_record domain host w)

  abbrev pub deleted : Text → StateTracker → Bool × W → Option DnsError × StateTracker × W
  deleted domain t (false, w) = (some delete_failed, t, w)
  deleted domain t (true, w) = (none, erase domain t, w)

  unfoldable pub cleanup_dns :
      Bool → DnsProvider W → Text → StateTracker → W → Option DnsError × StateTracker × W
  cleanup_dns false p domain t w = (none, t, w)
  cleanup_dns true p domain t w = deleted domain t (p.delete_record domain w)

  abbrev pub provisioned : Text → StateTracker → Bool × W → Bool × StateTracker × W
  provisioned domain t (false, w) = (false, insert domain status_error t, w)
  provisioned domain t (true, w) = (true, insert domain status_active t, w)

  -- Whether it succeeded, the tracker and the world.
  unfoldable pub provision_tls : TlsProvider W → Text → StateTracker → W → Bool × StateTracker × W
  provision_tls p domain t w =
      provisioned domain (insert domain status_pending t) (p.provision domain w)

  abbrev pub cleaned : Text → StateTracker → Bool × W → Bool × StateTracker × W
  cleaned domain t (false, w) = (false, t, w)
  cleaned domain t (true, w) = (true, erase domain t, w)

  unfoldable pub cleanup_tls :
      Bool → TlsProvider W → Text → StateTracker → W → Bool × StateTracker × W
  cleanup_tls false p domain t w = (true, t, w)
  cleanup_tls true p domain t w = cleaned domain t (p.cleanup domain w)

-- The documented effect of a deletion on the records of a provider: where it succeeds, the domain has none
-- any more. A provider that makes no records, as MagicDNS, has none at any time.
pub record Records {ℓ} {W : Type ℓ} (dns : DnsProvider W) : Type ℓ where
  pub points_to : W → Text → Option Text
  pub after_delete :
      (domain : Text) (w : W)
      → (dns.delete_record domain w).0 ≡ true
      → points_to (dns.delete_record domain w).1 domain ≡ none
