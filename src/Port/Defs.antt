-- ===== src/Port/Defs.antt =====
-- Single port labels: `NewPortLongLabel`, `NewPortShortLabel` and what they call, and the targets of
-- a port.
use tsdproxy.Common.{
  ℕ, Bool, true, false, ◌&&◌, ◌||◌, not, List, [], ◌∷◌, ◌++◌, Option, none, some, ltb,
  if◌then◌else◌, Text, text_eq, Result, ok, err, ◌>>=◌, ◌>>◌, guard, or_fail, wrap,
}
use tsdproxy.Common.Int.{ℤ, pos, negsuc}
use tsdproxy.Strings.{codes, contains, split, atoi}

-- What is read of a `*url.URL`: `u.Scheme`, `u.Host` and `u.String()`.
pub record Url : Type 0 where
  pub scheme : Text
  pub host : Text
  pub text : Text

pub record PortConfig : Type 0 where
  pub targets : Option (List Url)
  pub name : Text
  pub proxy_protocol : Text
  pub proxy_port : ℕ
  pub tls_validate : Bool
  pub no_auto_detect : Bool
  pub is_redirect : Bool
  pub funnel : Bool

pub data PortError : Type 0 where
  invalid_proxy_config invalid_target_config : PortError
  invalid_number port_out_of_range : PortError
  invalid_protocol : Text → PortError
  invalid_url : PortError
  invalid_target_url : Text → PortError
  invalid_redirect_scheme : Text → PortError
  invalid_range range_reversed range_too_large range_with_redirect : PortError
  length_mismatch : ℕ → ℕ → PortError
  invalid_proxy_port invalid_target_port : PortError → PortError

abbrev pub proto_https : Text
proto_https = codes "https"

abbrev pub proto_http : Text
proto_http = codes "http"

abbrev pub proto_tcp : Text
proto_tcp = codes "tcp"

abbrev pub proto_udp : Text
proto_udp = codes "udp"

abbrev pub redirect_separator : Text
redirect_separator = codes "->"

abbrev pub proxy_separator : Text
proxy_separator = codes ":"

abbrev pub protocol_separator : Text
protocol_separator = codes "/"

abbrev pub default_proxy_port : ℕ
default_proxy_port = 443

abbrev pub min_port : ℕ
min_port = 1

abbrev pub max_port : ℕ
max_port = 65535

-- The port itself is handed on, since a valid one is not negative.
unfoldable pub validate_port_range : ℤ → Result PortError ℕ
validate_port_range (pos port) =
    if ltb port min_port || ltb max_port port then err port_out_of_range else ok port
validate_port_range (negsuc n) = err port_out_of_range

-- `strconv.Atoi` and `validatePortRange`, as every label does.
unfoldable pub parse_port : Text → Result PortError ℕ
unfolding validate_port_range
parse_port s = do port ← or_fail (atoi s) invalid_number; validate_port_range port

unfoldable pub default_port_config : Text → PortConfig
default_port_config name = record {
  targets = some [];
  name = name;
  proxy_protocol = proto_https;
  proxy_port = default_proxy_port;
  tls_validate = true;
  no_auto_detect = false;
  is_redirect = false;
  funnel = false;
}

unfoldable pub detect_separator : Text → Text
detect_separator s = if contains redirect_separator s then redirect_separator else proxy_separator

unfoldable pub is_protocol : Text → Bool
is_protocol p =
    text_eq p proto_https || text_eq p proto_http || text_eq p proto_tcp || text_eq p proto_udp

-- `parseProxySegment` behind its `strings.Split`, which returns one part at least.
unfoldable pub proxy_parts : List Text → PortConfig → Result PortError PortConfig
proxy_parts [] c = err invalid_proxy_config
proxy_parts (p ∷ []) c = do
  port ← wrap invalid_proxy_port (parse_port p)
  ok (record c { proxy_port = port })
proxy_parts (p ∷ protocol ∷ []) c = do
  port ← wrap invalid_proxy_port (parse_port p)
  guard (is_protocol protocol) (invalid_protocol protocol)
  ok (record c { proxy_port = port; proxy_protocol = protocol })
proxy_parts (p ∷ q ∷ r ∷ rest) c = err invalid_proxy_config

unfoldable pub parse_proxy_segment : Text → PortConfig → Result PortError PortConfig
unfolding proxy_parts
parse_proxy_segment segment c = proxy_parts (split segment protocol_separator) c

unfoldable pub default_target_protocol : Text → Text
default_target_protocol p =
    if text_eq p proto_tcp then proto_tcp else if text_eq p proto_udp then proto_udp else proto_http

unfoldable pub new_port_short_label : Text → Result PortError PortConfig
unfolding default_port_config parse_proxy_segment
new_port_short_label s = parse_proxy_segment s (default_port_config s)

module _ (parse_url : Text → Option Url) where
  unfoldable pub target_url : Text → Text → Result PortError Url
  target_url protocol port =
      or_fail (parse_url (protocol ++ codes "://0.0.0.0:" ++ port)) invalid_url

  unfoldable pub target_with : Text → Text → PortConfig → Result PortError PortConfig
  unfolding target_url
  target_with protocol p c = do
    _ ← wrap invalid_target_port (parse_port p)
    url ← target_url protocol p
    ok (record c { targets = some (url ∷ []) })

  -- `parseTargetSegment` behind its `strings.Split`.
  unfoldable pub target_parts : List Text → PortConfig → Result PortError PortConfig
  unfolding target_with default_target_protocol
  target_parts [] c = err invalid_target_config
  target_parts (p ∷ []) c = target_with (default_target_protocol c.proxy_protocol) p c
  target_parts (p ∷ protocol ∷ []) c = target_with protocol p c
  target_parts (p ∷ q ∷ r ∷ rest) c = err invalid_target_config

  unfoldable pub parse_target_segment : Text → PortConfig → Result PortError PortConfig
  unfolding target_parts
  parse_target_segment segment c = target_parts (split segment protocol_separator) c

  -- `append` to a nil target state makes one.
  unfoldable pub add_target : Url → PortConfig → PortConfig
  add_target u c = elim c.targets [
    | none ↦ record c { targets = some (u ∷ []) }
    | some us ↦ record c { targets = some (us ++ u ∷ []) }
  ]

  unfoldable pub redirect_to : Url → Text → PortConfig → Result PortError PortConfig
  unfolding add_target
  redirect_to u segment c = do
    guard (not (text_eq u.scheme []) && not (text_eq u.host [])) (invalid_target_url segment)
    guard (text_eq u.scheme proto_http || text_eq u.scheme proto_https)
        (invalid_redirect_scheme u.scheme)
    ok (add_target u c)

  unfoldable pub parse_redirect_target : Text → PortConfig → Result PortError PortConfig
  unfolding redirect_to
  parse_redirect_target segment c = do
    u ← or_fail (parse_url segment) (invalid_target_url segment)
    redirect_to u segment c

  unfoldable pub long_label_parts : Text → List Text → PortConfig → Result PortError PortConfig
  unfolding parse_redirect_target parse_target_segment
  long_label_parts separator (proxy ∷ target ∷ []) c = do
    c' ← parse_proxy_segment proxy c
    if text_eq separator redirect_separator
        then parse_redirect_target target (record c' { is_redirect = true })
        else parse_target_segment target c'
  long_label_parts separator _ c = err invalid_proxy_config

  unfoldable pub new_port_long_label : Text → Result PortError PortConfig
  unfolding detect_separator long_label_parts default_port_config
  new_port_long_label s =
      let separator = detect_separator s in
      long_label_parts separator (split s separator) (default_port_config s)

  -- `getFirst` copies the URL by parsing its text again.
  unfoldable pub get_first : Option (List Url) → Option Url
  get_first none = none
  get_first (some []) = none
  get_first (some (u ∷ us)) = parse_url u.text

  unfoldable pub get_first_target : PortConfig → Option Url
  unfolding get_first
  get_first_target c = get_first c.targets

unfoldable pub replace : Url → Url → List Url → List Url
replace origin target [] = []
replace origin target (v ∷ vs) =
    (if text_eq v.text origin.text then target else v) ∷ replace origin target vs

unfoldable pub replace_target : Url → Url → PortConfig → PortConfig
unfolding replace
replace_target origin target c = elim c.targets [
  | none ↦ c
  | some us ↦ record c { targets = some (replace origin target us) }
]
