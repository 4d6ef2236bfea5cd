-- ===== src/Port/Options/Permissions.antt =====
-- No port of a target has what the operator has not allowed.
use tsdproxy.Common.{
  ◌⊎◌, ℕ, zero, suc, ◌≡◌, refl, true, false, List, [], ◌∷◌, ◌++◌, Option, some, arith, Text,
  text_Eq, Ensures, Ensures->>=, Ensures-ok, if_both, append_assoc, Result, ok, err, guard, wrap,
  Bool-cases, Option-cases, Result-cases, inl, inr,
}
use tsdproxy.Common.Maps.{Map, Each, Each-insert}
use tsdproxy.Strings.{codes, has_prefix, split, split_n2}
use tsdproxy.Port.Defs.{
  Url, PortConfig, new_port_long_label, detect_separator, invalid_proxy_port, invalid_target_port,
  length_mismatch,
}
use tsdproxy.Port.Range.{
  is_port_range_label, expand_port_range_label, expanded_config, expand_loop, range_key, port_at,
  expanded_count, lengths_match, expand_segments, expand_parts, parse_port_list,
}
use tsdproxy.Port.Labels.{new_port_long_label_sound}
use tsdproxy.Port.Options.{
  PortOptionGates, apply_port_options, store_port, store_expanded, port_entry, ports_loop, ports_of,
}
use tsdproxy.Port.Options.Laws.{apply_port_options_lem}

-- A port as its label makes it, before the options.
pub record IsFresh (c : PortConfig) : Type 0 where
  pub tls_validate : c.tls_validate ≡ true
  pub funnel : c.funnel ≡ false

-- The key of a stored port has the prefix, and TLS validation is off or the funnel on only if the
-- operator allows that.
pub record IsPermitted (prefix : Text) (g : PortOptionGates) (k : Text) (c : PortConfig)
    : Type 0 where
  pub prefixed : has_prefix prefix k ≡ true
  pub tls_validate : (c.tls_validate ≡ true) ⊎ (g.allow_tls_validate_disable ≡ true)
  pub funnel : (c.funnel ≡ false) ⊎ (g.allow_funnel ≡ true)

abbrev pub ArePermitted : Text → PortOptionGates → Map Text PortConfig → Type 0
ArePermitted prefix g = Each (IsPermitted prefix g)

has_prefix-append : (p k s : Text) → has_prefix p k ≡ true → has_prefix p (k ++ s) ≡ true
unfolding has_prefix
has_prefix-append [] k s h = refl
has_prefix-append (b ∷ p) [] s h = cc
has_prefix-append (b ∷ p) (c ∷ k) s h = ground (arith, has_prefix-append p k s)

apply_port_options-IsPermitted :
    (prefix : Text) (g : PortOptionGates) (k : Text) (opts : List Text) (c : PortConfig)
    → has_prefix prefix k ≡ true
    → IsFresh c
    → IsPermitted prefix g k (apply_port_options g opts c)
apply_port_options-IsPermitted prefix g k opts c h v =
    rw (apply_port_options_lem g opts c) (ground arith)

abbrev Anything {ℓ} : {A : Type ℓ} → A → Type 0
Anything a = Unit

anything {ℓ κ} : {E : Type ℓ} {A : Type κ} (r : Result E A) → Ensures Anything r
anything (ok a) = tt
anything (err e) = tt

module _ (parse_url : Text → Option Url) where
  expanded_config-IsFresh :
      (p t : ℕ) (pp tp : Text) → Ensures IsFresh (expanded_config parse_url p pp t tp)
  unfolding expanded_config
  expanded_config-IsFresh p t pp tp = ground arith

  expand_loop-IsFresh :
      (ps ts : List ℕ) (pp tp : Text) (n i : ℕ) (m : Map Text PortConfig)
      → Each (λ k. IsFresh) m
      → Ensures (Each (λ k. IsFresh)) (expand_loop parse_url ps ts pp tp n i m)
  unfolding expand_loop
  expand_loop-IsFresh ps ts pp tp zero i m h = h
  expand_loop-IsFresh ps ts pp tp (suc n) i m h =
      Ensures->>= IsFresh (Each (λ k. IsFresh))
        (expanded_config parse_url (port_at ps i) pp (port_at ts i) tp) _
        (expanded_config-IsFresh _ _ pp tp)
        (λ c v. expand_loop-IsFresh ps ts pp tp n (suc i) _ (Each-insert _ (range_key i) c m v h))

  expand_segments-IsFresh :
      (a b : Text × Option Text) → Ensures (Each (λ k. IsFresh)) (expand_segments parse_url a b)
  unfolding expand_segments
  expand_segments-IsFresh (proxy, protocol) (target, target_protocol) =
      Ensures->>= Anything (Each (λ k. IsFresh)) (wrap invalid_proxy_port (parse_port_list proxy)) _
        (anything _)
        (λ ps _.
          Ensures->>= Anything (Each (λ k. IsFresh))
            (wrap invalid_target_port (parse_port_list target)) _ (anything _)
            (λ ts _.
              Ensures->>= Anything (Each (λ k. IsFresh))
                (guard (lengths_match ps ts) (length_mismatch _ _)) _ (anything _)
                (λ _ _. expand_loop-IsFresh ps ts _ _ (expanded_count ps ts) 0 [] tt)))

  expand_parts-IsFresh :
      (parts : List Text) → Ensures (Each (λ k. IsFresh)) (expand_parts parse_url parts)
  unfolding expand_parts
  expand_parts-IsFresh (a ∷ b ∷ []) = expand_segments-IsFresh (split_n2 a b'/') (split_n2 b b'/')
  expand_parts-IsFresh [] = tt
  expand_parts-IsFresh (a ∷ []) = tt
  expand_parts-IsFresh (a ∷ b ∷ c ∷ rest) = tt

  expand_port_range_label-IsFresh :
      (s : Text) → Ensures (Each (λ k. IsFresh)) (expand_port_range_label parse_url s)
  unfolding expand_port_range_label
  expand_port_range_label-IsFresh s =
      ground (arith, expand_parts-IsFresh (split s (detect_separator s)))

module _ (parse_url : Text → Option Url) (resolve : PortConfig → Option PortConfig)
    (g : PortOptionGates) (prefix : Text)
    (resolves : (c c' : PortConfig)
      → resolve c ≡ some c'
      → (c'.tls_validate ≡ c.tls_validate) × (c'.funnel ≡ c.funnel)) where
  resolved-IsPermitted :
      (k : Text) (c c' : PortConfig)
      → (c'.tls_validate ≡ c.tls_validate) × (c'.funnel ≡ c.funnel)
      → IsPermitted prefix g k c
      → IsPermitted prefix g k c'
  resolved-IsPermitted k c c' same v = ground arith

  store_port-ArePermitted :
      (k : Text) (c : PortConfig) (ports : Map Text PortConfig)
      → IsPermitted prefix g k c
      → ArePermitted prefix g ports
      → ArePermitted prefix g (store_port parse_url resolve g k c ports)
  unfolding store_port
  store_port-ArePermitted k c ports v h =
      if_both (ArePermitted prefix g) c.is_redirect (λ _. Each-insert _ k c ports v h)
        (λ _. elim (Option-cases (resolve c)) [
          | inl lost ↦ rw lost h
          | inr (c', found) ↦
              rw found
                (Each-insert _ k c' ports (resolved-IsPermitted k c c' (resolves c c' found) v) h)
        ])

  store_expanded-ArePermitted :
      (k : Text) (opts : List Text) (expanded ports : Map Text PortConfig)
      → has_prefix prefix k ≡ true
      → Each (λ j. IsFresh) expanded
      → ArePermitted prefix g ports
      → ArePermitted prefix g (store_expanded parse_url resolve g k opts expanded ports)
  unfolding store_expanded
  store_expanded-ArePermitted k opts [] ports p f h = h
  store_expanded-ArePermitted k opts ((j, c) ∷ expanded) ports p (v, f) h =
      let key = k ++ codes "." ++ j in
      store_expanded-ArePermitted k opts expanded _ p f (
        store_port-ArePermitted key _ ports
          (apply_port_options-IsPermitted prefix g key opts c
            (rw (append_assoc k (codes ".") j) (has_prefix-append prefix k _ p)) v)
          h)

  port_entry-ArePermitted :
      (k : Text) (parts : List Text) (ports : Map Text PortConfig)
      → has_prefix prefix k ≡ true
      → ArePermitted prefix g ports
      → ArePermitted prefix g (port_entry parse_url resolve g k parts ports)
  unfolding port_entry
  port_entry-ArePermitted k [] ports p h = h
  port_entry-ArePermitted k (label ∷ opts) ports p h =
      elim (Bool-cases (is_port_range_label label)) [
        | inl range ↦ elim (Result-cases (expand_port_range_label parse_url label)) [
          | inl (m, e) ↦
              rw (range, e)
                (store_expanded-ArePermitted k opts m ports p
                  (Ensures-ok (Each (λ j. IsFresh)) _ m
                    (expand_port_range_label-IsFresh parse_url label) e)
                  h)
          | inr (_, e) ↦ rw (range, e) h
        ]
        | inr single ↦ elim (Result-cases (new_port_long_label parse_url label)) [
          | inl (c, e) ↦
              let v = new_port_long_label_sound parse_url label c e in
              rw (single, e)
                (store_port-ArePermitted k _ ports
                  (apply_port_options-IsPermitted prefix g k opts c p
                    (record { tls_validate = v.tls_validate; funnel = v.funnel }))
                  h)
          | inr (_, e) ↦ rw (single, e) h
        ]
      ]

  ports_loop-ArePermitted :
      (m : Map Text Text) (ports : Map Text PortConfig)
      → ArePermitted prefix g ports
      → ArePermitted prefix g (ports_loop parse_url resolve g m prefix ports)
  unfolding ports_loop
  ports_loop-ArePermitted [] ports h = h
  ports_loop-ArePermitted ((k, v) ∷ m) ports h = elim (Bool-cases (has_prefix prefix k)) [
    | inl p ↦ rw p (ports_loop-ArePermitted m _ (port_entry-ArePermitted k (split v _) ports p h))
    | inr p ↦ rw p (ports_loop-ArePermitted m ports h)
  ]

  -- If the provider's resolver leaves TLS validation and the funnel alone, every port that `Ports`
  -- makes of a target's labels stands under a key with the prefix, skips TLS validation only if the
  -- operator allows that, and is exposed by a funnel only if the operator allows that.
  pub ports_of-ArePermitted :
      (m : Map Text Text) → ArePermitted prefix g (ports_of parse_url resolve g m prefix)
  unfolding ports_of
  ports_of-ArePermitted m = ports_loop-ArePermitted m [] tt
