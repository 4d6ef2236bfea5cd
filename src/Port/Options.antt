-- ===== src/Port/Options.antt =====
-- `ApplyPortOptions` and `Ports`: the options behind a port label, and the ports of a target.
--
-- `resolve` is the provider's `TargetResolver`, which `Ports` is given; `none` is its error. Go visits
-- the entries of the two maps in an order that it does not fix, here that of the lists.
pub mod Laws
pub mod Permissions
use tsdproxy.Common.{
  ℕ, Bool, true, false, List, [], ◌∷◌, ◌++◌, Option, none, some, if◌then◌else◌, Text, text_eq,
  text_Eq, Result, ok, err,
}
use tsdproxy.Common.Maps.{Map, insert}
use tsdproxy.Strings.{codes, has_prefix, split, trim_space}
use tsdproxy.Port.Defs.{Url, PortConfig, PortError, new_port_long_label}
use tsdproxy.Port.Range.{is_port_range_label, expand_port_range_label}

pub record PortOptionGates : Type 0 where
  pub funnel_setting_name : Text
  pub allow_tls_validate_disable : Bool
  pub allow_funnel : Bool
  pub support_no_auto_detect : Bool

abbrev pub option_no_tls_validate : Text
option_no_tls_validate = codes "no_tlsvalidate"

abbrev pub option_tailscale_funnel : Text
option_tailscale_funnel = codes "tailscale_funnel"

abbrev pub option_no_auto_detect : Text
option_no_auto_detect = codes "no_autodetect"

-- One round of `ApplyPortOptions`, for a trimmed option; the warnings are left out.
unfoldable pub apply_option : PortOptionGates → Text → PortConfig → PortConfig
apply_option g opt port =
    if text_eq opt option_no_tls_validate
    then (if g.allow_tls_validate_disable then record port { tls_validate = false } else port)
    else if text_eq opt option_tailscale_funnel
    then (if g.allow_funnel then record port { funnel = true } else port)
    else if text_eq opt option_no_auto_detect
    then (if g.support_no_auto_detect then record port { no_auto_detect = true } else port)
    else port

unfoldable pub apply_port_options : PortOptionGates → List Text → PortConfig → PortConfig
unfolding apply_option
apply_port_options g [] port = port
apply_port_options g (opt ∷ opts) port =
    apply_port_options g opts (apply_option g (trim_space opt) port)

module _ (parse_url : Text → Option Url) (resolve : PortConfig → Option PortConfig)
    (g : PortOptionGates) where
  -- A port that does not redirect is stored if it can be resolved.
  unfoldable pub store_port : Text → PortConfig → Map Text PortConfig → Map Text PortConfig
  store_port key port ports =
      if port.is_redirect
      then insert key port ports
      else elim (resolve port) [ none ↦ ports | some port' ↦ insert key port' ports ]

  unfoldable pub store_expanded :
      Text → List Text → Map Text PortConfig → Map Text PortConfig → Map Text PortConfig
  store_expanded k opts [] ports = ports
  store_expanded k opts ((range_key, port) ∷ expanded) ports =
      store_expanded k opts expanded
        (store_port (k ++ codes "." ++ range_key) (apply_port_options g opts port) ports)

  -- The body of the loop of `Ports` behind `strings.Split(v, ",")`, which returns one part at least.
  unfoldable pub port_entry : Text → List Text → Map Text PortConfig → Map Text PortConfig
  port_entry k [] ports = ports
  port_entry k (label ∷ opts) ports =
      if is_port_range_label label
      then elim (expand_port_range_label parse_url label) [
        | err e ↦ ports
        | ok expanded ↦ store_expanded k opts expanded ports
      ]
      else elim (new_port_long_label parse_url label) [
        | err e ↦ ports
        | ok port ↦ store_port k (apply_port_options g opts port) ports
      ]

  unfoldable pub ports_loop : Map Text Text → Text → Map Text PortConfig → Map Text PortConfig
  ports_loop [] prefix ports = ports
  ports_loop ((k, v) ∷ m) prefix ports =
      ports_loop m prefix
        (if has_prefix prefix k then port_entry k (split v (codes ",")) ports else ports)

  unfoldable pub ports_of : Map Text Text → Text → Map Text PortConfig
  ports_of m prefix = ports_loop m prefix []
