-- ===== src/Config/Defaults.antt =====
-- The default proxy provider, and the target providers that fall back on it.
use tsdproxy.Common.{
  ℕ, ◌≡◌, refl, ◌∙◌, Bool, true, [], ◌∷◌, arith, Text, text_eq_iff, ok, ◌>>◌, guard, Bool-cases,
  Ensures, Ensures-ok, Ensures->>=, >>=-eq-ok, inl, inr,
}
use tsdproxy.Common.Maps.{Map, Each}
use tsdproxy.Config.{
  TargetProviderConfig, Data, ConfigError, is_empty, lower_char, to_lower, has_name,
  has_proxy_provider, first_name, get_default_proxy_provider, add_default,
  set_default_proxy_provider, add_defaults, validate, validate_proxy_providers,
  validate_dns_providers, validate_tls_providers,
}

lower_char_twice : (c : ℕ) → lower_char (lower_char c) ≡ lower_char c
lower_char_twice c = ground arith

pub to_lower_twice : (t : Text) → to_lower (to_lower t) ≡ to_lower t
to_lower_twice [] = refl
to_lower_twice (c ∷ t) = rw (lower_char_twice c, to_lower_twice t) refl

-- A target provider's default is known.
abbrev pub IsKnown : Data → Text → TargetProviderConfig → Type 0
IsKnown d k p = has_proxy_provider d p.default_proxy_provider ≡ true

-- Every default names a Tailscale provider, up to the case of the letters.
pub record IsResolvable (d : Data) : Type 0 where
  pub default : has_proxy_provider d d.default_proxy_provider ≡ true
  pub docker : Each (IsKnown d) d.docker
  pub incus : Each (IsKnown d) d.incus
  pub proxmox : Each (IsKnown d) d.proxmox

first_name_lem {ℓ} :
    {V : Type ℓ} (m : Map Text V)
    → Ensures (λ name. has_name (to_lower name) m ≡ true) (first_name m)
unfolding first_name has_name
first_name_lem [] = tt
first_name_lem ((name, p) ∷ m) =
    rw
      (
        to_lower_twice name,
        to_lower_twice name,
        (text_eq_iff (to_lower name) (to_lower name)).1 refl,
      )
      refl

abbrev HasDefault : Data → Data → Type 0
HasDefault c d =
    (has_proxy_provider d d.default_proxy_provider ≡ true) × (d.providers ≡ c.providers)

set_default_lem : (c : Data) → Ensures (HasDefault c) (set_default_proxy_provider c)
unfolding set_default_proxy_provider get_default_proxy_provider has_proxy_provider
set_default_lem c = elim (Bool-cases (is_empty c.default_proxy_provider)) [
  | inl e ↦ rw e (
      Ensures->>= (λ name. has_name (to_lower name) c.providers ≡ true) (HasDefault c)
        (first_name c.providers) (λ name. ok (record c { default_proxy_provider = to_lower name }))
        (first_name_lem c.providers) (λ name h. (h, refl)))
  | inr e ↦ elim (Bool-cases (has_proxy_provider c c.default_proxy_provider)) [
    | inl h ↦ rw (e, h) (h, refl)
    | inr h ↦ rw (e, h) tt
  ]
]

add_default_lem :
    (c : Data) (m : Map Text TargetProviderConfig)
    → has_proxy_provider c c.default_proxy_provider ≡ true
    → Ensures (Each (IsKnown c)) (add_default c m)
unfolding add_default
add_default_lem c [] h = tt
add_default_lem c ((k, p) ∷ m) h = elim (Bool-cases (is_empty p.default_proxy_provider)) [
  | inl e ↦ rw e (
      Ensures->>= (Each (IsKnown c)) (Each (IsKnown c)) (add_default c m)
        (λ r. ok ((k, record { default_proxy_provider = c.default_proxy_provider }) ∷ r))
        (add_default_lem c m h) (λ r v. (h, v)))
  | inr e ↦ elim (Bool-cases (has_proxy_provider c p.default_proxy_provider)) [
    | inl known ↦
        rw (e, known)
          (Ensures->>= (Each (IsKnown c)) (Each (IsKnown c)) (add_default c m)
            (λ r. ok ((k, p) ∷ r)) (add_default_lem c m h) (λ r v. (known, v)))
    | inr known ↦ rw (e, known) tt
  ]
]

add_defaults_lem :
    (c : Data)
    → has_proxy_provider c c.default_proxy_provider ≡ true
    → Ensures (λ d. IsResolvable d × (d.providers ≡ c.providers)) (add_defaults c)
unfolding add_defaults has_proxy_provider
add_defaults_lem c h =
    Ensures->>= (Each (IsKnown c)) _ (add_default c c.docker) _ (add_default_lem c c.docker h)
      (λ docker v.
        Ensures->>= (Each (IsKnown c)) _ (add_default c c.incus) _ (add_default_lem c c.incus h)
          (λ incus w.
            Ensures->>= (Each (IsKnown c)) _ (add_default c c.proxmox) _
              (add_default_lem c c.proxmox h)
              (λ proxmox x. (record { default = h; docker = v; incus = w; proxmox = x }, refl))))

-- A configuration that passes the checks comes out with a default proxy provider that exists, with a
-- provider that exists on every Docker, Incus and Proxmox target provider, and with its Tailscale
-- providers unchanged.
pub validate-IsResolvable :
    (struct_ok : Data → Bool) (is_positive : Text → Bool) (c d : Data)
    → validate struct_ok is_positive c ≡ ok d
    → IsResolvable d × (d.providers ≡ c.providers)
unfolding validate
validate-IsResolvable struct_ok is_positive c d h =
    let before =
      guard (struct_ok c) ConfigError.struct_invalid
      >> validate_proxy_providers is_positive c
      >> validate_dns_providers c
      >> validate_tls_providers c in
    let (e, first, rest) = >>=-eq-ok (before >> set_default_proxy_provider c) add_defaults h in
    let (u, checked, second) = >>=-eq-ok before (λ u. set_default_proxy_provider c) first in
    let (known, same) = Ensures-ok (HasDefault c) _ e (set_default_lem c) second in
    let (w, same_too) =
      Ensures-ok (λ d. IsResolvable d × (d.providers ≡ e.providers)) _ d (add_defaults_lem e known)
        rest in
    (w, same_too ∙ same)
