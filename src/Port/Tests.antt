-- ===== src/Port/Tests.antt =====
-- The parsing of labels, run on the examples of port.go's comments, and the theorems applied there.
use tsdproxy.Common.{
  ◌≡◌, refl, true, false, List, [], ◌∷◌, Option, some, arith, Text, text_Eq, ok, err,
}
use tsdproxy.Common.Maps.{Map, insert}
use tsdproxy.Strings.{codes, contains, split, split_n2, atoi, itoa, has_prefix, trim_space}
use tsdproxy.Port.Defs.{
  Url, PortConfig, redirect_separator, new_port_long_label, new_port_short_label,
  parse_proxy_segment, parse_port, target_url, invalid_protocol, port_out_of_range,
  invalid_proxy_port, is_protocol, proto_http, proto_tcp, proto_https,
}
use tsdproxy.Port.Labels.{IsLabel, new_port_long_label_sound}
use tsdproxy.Port.Range.{
  parse_port_range, expanded_config, range_key, is_port_range_label, is_port_range,
}
use tsdproxy.Port.RoundTrip.{new_port_long_label-expanded}
use tsdproxy.Port.Options.{
  PortOptionGates, apply_port_options, ports_of, ports_loop, port_entry, store_port,
}
use tsdproxy.Port.Options.Permissions.{ArePermitted, ports_of-ArePermitted}

-- A parser that takes the text for an http URL of one host.
abbrev demo_url : Text → Option Url
demo_url s = some (record { scheme = proto_http; host = codes "host"; text = s })

abbrev demo_label : PortConfig
demo_label = record {
  targets =
      some (
        record { scheme = proto_http; host = codes "host"; text = codes "http://0.0.0.0:80" } ∷ []);
  name = codes "443:80";
  proxy_protocol = proto_https;
  proxy_port = 443;
  tls_validate = true;
  no_auto_detect = false;
  is_redirect = false;
  funnel = false;
}

short_form : new_port_long_label demo_url (codes "443:80") ≡ ok demo_label
unfolding new_port_long_label contains split atoi parse_proxy_segment parse_port
short_form = refl

bad_protocol :
    new_port_long_label demo_url (codes "443/ftp:80") ≡ err (invalid_protocol (codes "ftp"))
unfolding new_port_long_label contains split atoi is_protocol parse_proxy_segment parse_port
bad_protocol = refl

bad_port : new_port_short_label (codes "70000/tcp") ≡ err (invalid_proxy_port port_out_of_range)
unfolding new_port_short_label split atoi parse_port
bad_port = refl

new_port_long_label_sound_example :
    IsLabel (codes "443:80") (contains redirect_separator (codes "443:80")) demo_label
new_port_long_label_sound_example =
    new_port_long_label_sound demo_url (codes "443:80") demo_label short_form

abbrev demo_short : PortConfig
demo_short = record demo_label {
  targets = some [];
  name = codes "8443/tcp";
  proxy_protocol = proto_tcp;
  proxy_port = 8443;
}

short_label : new_port_short_label (codes "8443/tcp") ≡ ok demo_short
unfolding new_port_short_label split atoi is_protocol parse_port
short_label = refl

abbrev demo_expanded : PortConfig
demo_expanded = record demo_label { name = codes "443/https:80/http" }

expanded : expanded_config demo_url 443 proto_https 80 proto_http ≡ ok demo_expanded
unfolding expanded_config itoa target_url
expanded = refl

new_port_long_label-expanded_example :
    new_port_long_label demo_url (codes "443/https:80/http") ≡ ok demo_expanded
unfolding is_protocol
new_port_long_label-expanded_example =
    new_port_long_label-expanded demo_url 443 80 proto_https proto_http demo_expanded (omega arith)
      (omega arith) (omega arith) (omega arith) refl
      (record { no_dash = omega arith; no_slash = omega arith; no_colon = omega arith }) expanded

range_ok : parse_port_range (codes "56000-56100") ≡ ok (56000, 56100)
unfolding parse_port_range split_n2 atoi
range_ok = refl

abbrev demo_range : Map Text PortConfig
demo_range =
    (range_key 0, record demo_label { name = codes "443/https:80/http" })
    ∷ (range_key 1, record demo_label { name = codes "444/https:80/http"; proxy_port = 444 })
    ∷ []

abbrev demo_gates : PortOptionGates
demo_gates = record {
  funnel_setting_name = codes "allowContainerFunnel";
  allow_tls_validate_disable = true;
  allow_funnel = false;
  support_no_auto_detect = false;
}

abbrev demo_options : List Text
demo_options = codes " no_tlsvalidate" ∷ codes "tailscale_funnel" ∷ []

options_applied :
    apply_port_options demo_gates demo_options demo_label
    ≡ record demo_label { tls_validate = false }
unfolding apply_port_options trim_space
options_applied = refl

abbrev demo_labels : Map Text Text
demo_labels =
    (codes "tsdproxy.port.1", codes "443:80,tailscale_funnel") ∷ (codes "other", codes "x") ∷ []

ports_stored :
    ports_of demo_url some demo_gates demo_labels (codes "tsdproxy.port.")
    ≡ (codes "tsdproxy.port.1", demo_label) ∷ []
unfolding ports_of ports_loop port_entry store_port apply_port_options trim_space
    is_port_range_label is_port_range split_n2 atoi has_prefix insert new_port_long_label contains
    split parse_proxy_segment parse_port
ports_stored = refl

same_options :
    (c c' : PortConfig)
    → ◌≡◌ {A = Option PortConfig} (some c) (some c')
    → (c'.tls_validate ≡ c.tls_validate) × (c'.funnel ≡ c.funnel)
same_options c c' e = ground arith

ports_of-ArePermitted_example :
    ArePermitted
      (codes "tsdproxy.port.")
      demo_gates
      (ports_of demo_url some demo_gates demo_labels (codes "tsdproxy.port."))
ports_of-ArePermitted_example =
    ports_of-ArePermitted demo_url some demo_gates (codes "tsdproxy.port.") same_options demo_labels
