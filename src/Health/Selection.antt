-- ===== src/Health/Selection.antt =====
-- Which port of a proxy is monitored.
use tsdproxy.Common.{
  ◌≡◌, refl, ◌⊎◌, inl, inr, true, false, [], ◌∷◌, Option, none, some, arith, Text, Option-cases,
  if_both,
}
use tsdproxy.Common.Maps.{Map, Each}
use tsdproxy.Port.Defs.{Url, PortConfig}
use tsdproxy.Health.{text_leb, insert_sorted, sort_ports, monitored, select_port, health_port}

text_leb_total : (s t : Text) → text_leb s t ≡ false → text_leb t s ≡ true
unfolding text_leb
text_leb_total [] t h = cc
text_leb_total (c ∷ s) [] h = refl
text_leb_total (c ∷ s) (d ∷ t) h = ground (arith, text_leb_total s t)

text_leb_refl : (s : Text) → text_leb s s ≡ true
unfolding text_leb
text_leb_refl [] = refl
text_leb_refl (c ∷ s) = ground (arith, text_leb_refl s)

text_leb_trans : (s t u : Text) → text_leb s t ≡ true → text_leb t u ≡ true → text_leb s u ≡ true
unfolding text_leb
text_leb_trans [] t u h k = refl
text_leb_trans (c ∷ s) [] u h k = cc
text_leb_trans (c ∷ s) (d ∷ t) [] h k = cc
text_leb_trans (c ∷ s) (d ∷ t) (e ∷ u) h k = ground (arith, text_leb_trans s t u)

module _ {ℓ} (P : Text → PortConfig → Type ℓ) where
  Each-insert_sorted :
      (k : Text) (c : PortConfig) (m : Map Text PortConfig)
      → P k c
      → Each P m
      → Each P (insert_sorted (k, c) m)
  unfolding insert_sorted
  Each-insert_sorted k c [] p h = (p, tt)
  Each-insert_sorted k c ((j, d) ∷ m) p (q, h) =
      if_both (Each P) (text_leb k j) (λ _. (p, (q, h))) (λ _. (q, Each-insert_sorted k c m p h))

  Each-of_insert_sorted :
      (k : Text) (c : PortConfig) (m : Map Text PortConfig)
      → Each P (insert_sorted (k, c) m)
      → P k c × Each P m
  unfolding insert_sorted
  Each-of_insert_sorted k c [] h = h
  Each-of_insert_sorted k c ((j, d) ∷ m) h = ground (arith, Each-of_insert_sorted k c m)

  Each-sort_ports : (m : Map Text PortConfig) → Each P m → Each P (sort_ports m)
  unfolding sort_ports
  Each-sort_ports [] h = tt
  Each-sort_ports ((k, c) ∷ m) (p, h) =
      Each-insert_sorted k c (sort_ports m) p (Each-sort_ports m h)

  Each-of_sort_ports : (m : Map Text PortConfig) → Each P (sort_ports m) → Each P m
  unfolding sort_ports
  Each-of_sort_ports [] h = tt
  Each-of_sort_ports ((k, c) ∷ m) h =
      let (p, rest) = Each-of_insert_sorted k c (sort_ports m) h in (p, Each-of_sort_ports m rest)

Each-map {ℓ κ} :
    {P : Text → PortConfig → Type ℓ} {Q : Text → PortConfig → Type κ}
    → ((k : Text) (c : PortConfig) → P k c → Q k c)
    → (m : Map Text PortConfig) → Each P m
    → Each Q m
Each-map f [] h = tt
Each-map f ((k, c) ∷ m) (p, h) = (f k c p, Each-map f m h)

abbrev After : Text → Map Text PortConfig → Type 0
After k = Each (λ j d. text_leb k j ≡ true)

abbrev Sorted : Map Text PortConfig → Type 0
Sorted [] = Unit
Sorted ((k, c) ∷ m) = After k m × Sorted m

insert_sorted-Sorted :
    (k : Text) (c : PortConfig) (m : Map Text PortConfig)
    → Sorted m
    → Sorted (insert_sorted (k, c) m)
unfolding insert_sorted
insert_sorted-Sorted k c [] h = (tt, tt)
insert_sorted-Sorted k c ((j, d) ∷ m) (a, h) =
    if_both Sorted (text_leb k j)
      (λ e. ((e, Each-map (λ i b q. text_leb_trans k j i e q) m a), (a, h)))
      (λ e. (
        Each-insert_sorted (λ i b. text_leb j i ≡ true) k c m (text_leb_total k j e) a,
        insert_sorted-Sorted k c m h,
      ))

sort_ports-Sorted : (m : Map Text PortConfig) → Sorted (sort_ports m)
unfolding sort_ports
sort_ports-Sorted [] = tt
sort_ports-Sorted ((k, c) ∷ m) = insert_sorted-Sorted k c (sort_ports m) (sort_ports-Sorted m)

module _ (parse_url : Text → Option Url) where
  -- The monitored port, or none: every port with a smaller name, or every port at all, redirects or
  -- has no target with a host.
  abbrev pub IsFirst : Map Text PortConfig → Option (Text × PortConfig × Url) → Type 0
  IsFirst m none = Each (λ j d. monitored parse_url d ≡ none) m
  IsFirst m (some (k, c, u)) =
      (monitored parse_url c ≡ some u)
      × Each (λ j d. (monitored parse_url d ≡ none) ⊎ (text_leb k j ≡ true)) m

  IsFirst-cons :
      (k : Text) (c : PortConfig) (m : Map Text PortConfig) (r : Option (Text × PortConfig × Url))
      → monitored parse_url c ≡ none
      → IsFirst m r
      → IsFirst ((k, c) ∷ m) r
  IsFirst-cons k c m none e h = (e, h)
  IsFirst-cons k c m (some (j, d, u)) e (here, h) = (here, (inl e, h))

  select_port-IsFirst : (m : Map Text PortConfig) → Sorted m → IsFirst m (select_port parse_url m)
  unfolding select_port
  select_port-IsFirst [] h = tt
  select_port-IsFirst ((k, c) ∷ m) (a, h) = elim (Option-cases (monitored parse_url c)) [
    | inl e ↦
        rw (e, select_port)
          (IsFirst-cons k c m (select_port parse_url m) e (select_port-IsFirst m h))
    | inr (u, e) ↦ rw (e, select_port) (e, (inr (text_leb_refl k), Each-map (λ j d q. inr q) m a))
  ]

  of_sort_ports :
      (m : Map Text PortConfig) (r : Option (Text × PortConfig × Url))
      → IsFirst (sort_ports m) r
      → IsFirst m r
  of_sort_ports m none h = Each-of_sort_ports _ m h
  of_sort_ports m (some (k, c, u)) (here, h) = (here, Each-of_sort_ports _ m h)

  -- The port that is monitored has a target with a host and does not redirect, and no port with a
  -- smaller name is such; if none is monitored, every port redirects or has no target with a host.
  pub health_port_lem : (ports : Map Text PortConfig) → IsFirst ports (health_port parse_url ports)
  unfolding health_port
  health_port_lem ports =
      of_sort_ports ports (select_port parse_url (sort_ports ports))
        (select_port-IsFirst (sort_ports ports) (sort_ports-Sorted ports))
