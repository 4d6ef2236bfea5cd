-- ===== src/Port/Expansion.antt =====
-- What the expansion of a range label yields: one configuration for each port of the range.
use tsdproxy.Common.{
  max, ℕ, zero, suc, ◌+◌, ◌-◌, ◌≤◌, ◌<◌, ◌≡◌, ◌≢◌, refl, ap, ◌⊎◌, inl, inr, true, false, List, [],
  ◌∷◌, Option, none, some, arith, ltb, Text, text_Eq, ok, Ensures, Ensures->>=, if◌then◌else◌,
  length, get_or, Bool-cases,
}
use tsdproxy.Common.Maps.{Map, lookup}
use tsdproxy.Strings.{itoa, split_n2}
use tsdproxy.Port.Defs.{Url, PortConfig, parse_port, target_url}
use tsdproxy.Port.Labels.{parse_port_bounds}
use tsdproxy.Port.Range.{
  range_parts, parse_port_range, is_port_range, count_up, ports_between, parse_port_list, port_at,
  range_key, expanded_config, expanded_name,
}

-- The bounds of a range: valid ports, in order, and a thousand at most.
abbrev pub IsRange : ℕ × ℕ → Type 0
IsRange (start, end) = (1 ≤ start) × (start ≤ end) × (end ≤ 65535) × (end < start + 1000)

range_parts_sound : (start : Text) (end : Option Text) → Ensures IsRange (range_parts (start, end))
unfolding range_parts
range_parts_sound start none = tt
range_parts_sound start (some end) = ground arith

-- A range that is accepted has valid ports in order, and a thousand of them at most.
pub parse_port_range_sound : (s : Text) → Ensures IsRange (parse_port_range s)
unfolding parse_port_range
parse_port_range_sound s = let (start, end) = split_n2 s b'-' in range_parts_sound start end

-- Consecutive valid ports, at least one and at most a thousand.
pub record ArePorts (first count : ℕ) (ports : List ℕ) : Type 0 where
  pub consecutive : ports ≡ count_up count first
  pub some_port : 1 ≤ count
  pub few : count ≤ 1000
  pub first_pos : 1 ≤ first
  pub last_le : first + count ≤ 65536

abbrev pub IsPortList : List ℕ → Type 0
IsPortList ports = (first : ℕ) × (count : ℕ) × ArePorts first count ports

single_port : (p : ℕ) → (1 ≤ p) × (p ≤ 65535) → ArePorts p 1 (p ∷ [])
unfolding count_up
single_port p h = record {
  consecutive = refl;
  some_port = omega arith;
  few = omega arith;
  first_pos = omega arith;
  last_le = omega arith;
}

range_ports : (r : ℕ × ℕ) → IsRange r → IsPortList (ports_between r)
unfolding ports_between
range_ports (start, end) h = (
  start,
  end + 1 - start,
  record {
    consecutive = refl;
    some_port = omega arith;
    few = omega arith;
    first_pos = omega arith;
    last_le = omega arith;
  },
)

pub parse_port_list_sound : (s : Text) → Ensures IsPortList (parse_port_list s)
unfolding parse_port_list count_up
parse_port_list_sound s = elim (Bool-cases (is_port_range s)) [
  | inl e ↦ rw e (
      Ensures->>= IsRange IsPortList (parse_port_range s) _ (parse_port_range_sound s)
        (λ r h. range_ports r h))
  | inr e ↦ rw e (
      Ensures->>= _ IsPortList (parse_port s) _ (parse_port_bounds s)
        (λ p h. (p, 1, single_port p h)))
]

pub length-count_up : (n p : ℕ) → length (count_up n p) ≡ n
unfolding count_up
length-count_up zero p = refl
length-count_up (suc n) p = ap suc (length-count_up n (suc p))

get_or-count_up : (n p i : ℕ) → i < n → get_or (count_up n p) i 0 ≡ p + i
unfolding count_up
get_or-count_up zero p i h = elim h [ ]
get_or-count_up (suc n) p zero h = omega arith
get_or-count_up (suc n) p (suc i) h = omega (arith, get_or-count_up n (suc p) i)

-- The port of round `i`: a single port is reused.
pub port_at-count_up :
    (n p i : ℕ)
    → 1 ≤ n
    → (n ≢ 1 → i < n)
    → port_at (count_up n p) i ≡ (if ltb 1 n then p + i else p)
unfolding port_at
port_at-count_up n p i h k =
    ground (arith, length-count_up n p, get_or-count_up n p i, get_or-count_up n p 0, k)

module _ (parse_url : Text → Option Url) (ps ts : List ℕ) (pp tp : Text) where
  -- The entries of the rounds before `end`, in the map that the loop has made.
  abbrev HasEntry : Map Text PortConfig → ℕ → Type 0
  HasEntry m j =
      (c : PortConfig) × (lookup (range_key j) m ≡ some c)
      × (expanded_config parse_url (port_at ps j) pp (port_at ts j) tp ≡ ok c)

-- The port of a round, of a range that starts at `first` and has `count` ports.
abbrev pub round_port : ℕ → ℕ → ℕ → ℕ
round_port first count j = if ltb 1 count then first + j else first

-- The configuration of a round.
pub record IsRound (pp tp : Text) (p t : ℕ) (parse_url : Text → Option Url) (c : PortConfig)
    : Type 0 where
  pub proxy_port : c.proxy_port ≡ p
  pub proxy_protocol : c.proxy_protocol ≡ pp
  pub name : c.name ≡ expanded_name p pp t tp
  pub target : (u : Url) × (target_url parse_url tp (itoa t) ≡ ok u) × (c.targets ≡ some (u ∷ []))
  pub is_redirect : c.is_redirect ≡ false
  pub tls_validate : c.tls_validate ≡ true

-- The result of an expansion: two ranges of valid ports that match in length, and one entry for each
-- round.
pub record IsExpansion (parse_url : Text → Option Url) (pp tp : Text) (m : Map Text PortConfig)
    : Type 0 where
  pub first : ℕ
  pub count : ℕ
  pub start : ℕ
  pub size : ℕ
  pub first_pos : 1 ≤ first
  pub last_le : first + count ≤ 65536
  pub start_pos : 1 ≤ start
  pub end_le : start + size ≤ 65536
  pub few : max count size ≤ 1000
  pub matching : (count ≡ 1) ⊎ ((size ≡ 1) ⊎ (count ≡ size))
  pub entries :
      (j : ℕ)
      → j < max count size
      → (c : PortConfig) × (lookup (range_key j) m ≡ some c)
        × IsRound pp tp (round_port first count j) (round_port start size j) parse_url c
