-- ===== src/Port/Range.antt =====
-- Port ranges: `isPortRange`, `parsePortRange`, `parsePortList` and the expansion of range labels.
use tsdproxy.Common.{
  ℕ, zero, suc, ◌+◌, ◌-◌, Bool, true, false, ◌&&◌, ◌||◌, List, [], ◌∷◌, ◌++◌, Option, none, some,
  ltb, ◌==◌, if◌then◌else◌, length, get_or, Text, text_eq, Result, ok, err, ◌>>=◌, ◌>>◌, guard,
  or_fail, wrap, text_Eq,
}
use tsdproxy.Common.Maps.{Map, insert}
use tsdproxy.Strings.{codes, split, split_n2, atoi, itoa}
use tsdproxy.Port.Defs.{
  Url, PortConfig, PortError, invalid_proxy_config, invalid_range, range_reversed, range_too_large,
  range_with_redirect, length_mismatch, invalid_proxy_port, invalid_target_port, proto_https,
  redirect_separator, validate_port_range, parse_port, detect_separator, default_target_protocol,
  new_port_short_label, target_url,
}

abbrev pub max_range_len : ℕ
max_range_len = 1000

abbrev pub is_some {ℓ} : {A : Type ℓ} → Option A → Bool
is_some none = false
is_some (some a) = true

unfoldable pub is_range : Text × Option Text → Bool
is_range (start, none) = false
is_range (start, some end) = is_some (atoi start) && is_some (atoi end)

unfoldable pub is_port_range : Text → Bool
unfolding is_range
is_port_range s = is_range (split_n2 s b'-')

unfoldable pub checked_range : ℕ → ℕ → Result PortError (ℕ × ℕ)
checked_range start end = do
  guard (if ltb end start then false else true) range_reversed
  guard (if ltb max_range_len (end - start + 1) then false else true) range_too_large
  ok (start, end)

unfoldable pub range_parts : Text × Option Text → Result PortError (ℕ × ℕ)
unfolding checked_range validate_port_range
range_parts (start, none) = err invalid_range
range_parts (start, some end) = do
  first ← or_fail (atoi start) invalid_range
  last ← or_fail (atoi end) invalid_range
  first_port ← validate_port_range first
  last_port ← validate_port_range last
  checked_range first_port last_port

unfoldable pub parse_port_range : Text → Result PortError (ℕ × ℕ)
unfolding range_parts
parse_port_range s = range_parts (split_n2 s b'-')

-- `for p := start; …; p++ { append }` in so many rounds.
unfoldable pub count_up : ℕ → ℕ → List ℕ
count_up zero p = []
count_up (suc rounds) p = p ∷ count_up rounds (suc p)

unfoldable pub ports_between : ℕ × ℕ → List ℕ
unfolding count_up
ports_between (start, end) = count_up (end + 1 - start) start

unfoldable pub parse_port_list : Text → Result PortError (List ℕ)
unfolding ports_between
parse_port_list s =
    if is_port_range s
    then (do range ← parse_port_range s; ok (ports_between range))
    else (do port ← parse_port s; ok (port ∷ []))

-- A list of one port is reused in every round.
unfoldable pub port_at : List ℕ → ℕ → ℕ
port_at ports i = if ltb 1 (length ports) then get_or ports i 0 else get_or ports 0 0

unfoldable pub expanded_count : List ℕ → List ℕ → ℕ
expanded_count proxy_ports target_ports =
    if ltb (length proxy_ports) (length target_ports)
    then length target_ports
    else length proxy_ports

-- `fmt.Sprintf("range_%d", i)`
unfoldable pub range_key : ℕ → Text
range_key i = codes "range_" ++ itoa i

unfoldable pub expanded_name : ℕ → Text → ℕ → Text → Text
expanded_name proxy_port proxy_protocol target_port target_protocol =
    itoa proxy_port
    ++ b'/' ∷ (proxy_protocol ++ b':' ∷ (itoa target_port ++ b'/' ∷ target_protocol))

-- The text behind the first `/`, or the default.
abbrev pub protocol_or : Text → Option Text → Text
protocol_or default none = default
protocol_or default (some protocol) = protocol

unfoldable pub expanded_short : ℕ → Text → PortConfig
expanded_short p protocol = record {
  targets = some [];
  name = itoa p ++ b'/' ∷ protocol;
  proxy_protocol = protocol;
  proxy_port = p;
  tls_validate = true;
  no_auto_detect = false;
  is_redirect = false;
  funnel = false;
}

unfoldable pub short_loop : ℕ → ℕ → ℕ → Text → Map Text PortConfig → Map Text PortConfig
unfolding expanded_short
short_loop zero idx p protocol result = result
short_loop (suc rounds) idx p protocol result =
    short_loop rounds (suc idx) (suc p) protocol
      (insert (range_key idx) (expanded_short p protocol) result)

unfoldable pub short_label_parts :
    Text → Text × Option Text → Result PortError (Map Text PortConfig)
unfolding short_loop
short_label_parts s (port, protocol) =
    if is_port_range port
    then (do
      range ← parse_port_range port
      ok (short_loop (range.1 + 1 - range.0) 0 range.0 (protocol_or proto_https protocol) []))
    else (do c ← new_port_short_label s; ok ((codes "range_0", c) ∷ []))

unfoldable pub expand_port_range_short_label : Text → Result PortError (Map Text PortConfig)
unfolding short_label_parts
expand_port_range_short_label s = short_label_parts s (split_n2 s b'/')

unfoldable pub is_port_range_short_label : Text → Bool
is_port_range_short_label s = is_port_range (split_n2 s b'/').0

unfoldable pub is_range_label_parts : Text → List Text → Bool
is_range_label_parts separator (proxy ∷ target ∷ []) =
    is_port_range (split_n2 proxy b'/').0
    || ((if text_eq separator redirect_separator then false else true)
        && is_port_range (split_n2 target b'/').0)
is_range_label_parts separator _ = false

unfoldable pub is_port_range_label : Text → Bool
unfolding is_range_label_parts
is_port_range_label s =
    let separator = detect_separator s in is_range_label_parts separator (split s separator)

-- Two ranges have the same length, or one of them is a single port.
unfoldable pub lengths_match : List ℕ → List ℕ → Bool
lengths_match ps ts =
    if ltb 1 (length ps) && ltb 1 (length ts) then length ps == length ts else true

module _ (parse_url : Text → Option Url) where
  unfoldable pub expanded_config : ℕ → Text → ℕ → Text → Result PortError PortConfig
  unfolding expanded_name
  expanded_config proxy_port proxy_protocol target_port target_protocol = do
    url ← target_url parse_url target_protocol (itoa target_port)
    ok (record {
      targets = some (url ∷ []);
      name = expanded_name proxy_port proxy_protocol target_port target_protocol;
      proxy_protocol = proxy_protocol;
      proxy_port = proxy_port;
      tls_validate = true;
      no_auto_detect = false;
      is_redirect = false;
      funnel = false;
    })

  -- `for i := range count`, with `rounds` rounds left.
  unfoldable pub expand_loop :
      List ℕ
      → List ℕ
      → Text
      → Text
      → ℕ
      → ℕ
      → Map Text PortConfig
      → Result PortError (Map Text PortConfig)
  expand_loop ps ts pp tp zero i result = ok result
  expand_loop ps ts pp tp (suc rounds) i result = do
    c ← expanded_config (port_at ps i) pp (port_at ts i) tp
    expand_loop ps ts pp tp rounds (suc i) (insert (range_key i) c result)

  unfoldable pub expand_port_configs :
      List ℕ → List ℕ → Text → Text → Result PortError (Map Text PortConfig)
  expand_port_configs ps ts pp tp = do
    guard (lengths_match ps ts) (length_mismatch (length ps) (length ts))
    expand_loop ps ts pp tp (expanded_count ps ts) 0 []

  unfoldable pub expand_segments :
      Text × Option Text → Text × Option Text → Result PortError (Map Text PortConfig)
  unfolding expand_port_configs
  expand_segments (proxy, protocol) (target, target_protocol) = do
    let proxy_protocol = protocol_or proto_https protocol
    proxy_ports ← wrap invalid_proxy_port (parse_port_list proxy)
    target_ports ← wrap invalid_target_port (parse_port_list target)
    expand_port_configs proxy_ports target_ports proxy_protocol
        (protocol_or (default_target_protocol proxy_protocol) target_protocol)

  unfoldable pub expand_parts : List Text → Result PortError (Map Text PortConfig)
  unfolding expand_segments
  expand_parts (proxy ∷ target ∷ []) = expand_segments (split_n2 proxy b'/') (split_n2 target b'/')
  expand_parts _ = err invalid_proxy_config

  unfoldable pub expand_port_range_label : Text → Result PortError (Map Text PortConfig)
  unfolding expand_parts
  expand_port_range_label s =
      let separator = detect_separator s in
      if text_eq separator redirect_separator
      then err range_with_redirect
      else expand_parts (split s separator)
