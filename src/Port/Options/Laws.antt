-- ===== src/Port/Options/Laws.antt =====
-- Options do what was asked, as far as the operator allows it, and nothing else.
use tsdproxy.Common.{
  ◌≡◌, ◌∙◌, Bool, false, not, ◌&&◌, ◌||◌, List, [], ◌∷◌, arith, Text, text_eq, text_eq_iff, text_Eq,
}
use tsdproxy.Strings.{trim_space}
use tsdproxy.Port.Defs.{PortConfig}
use tsdproxy.Port.Options.{
  PortOptionGates, option_no_tls_validate, option_tailscale_funnel, option_no_auto_detect,
  apply_option, apply_port_options,
}

-- Some option in the list is `opt`, up to surrounding space.
pub asked : Text → List Text → Bool
asked opt [] = false
asked opt (o ∷ os) = text_eq (trim_space o) opt || asked opt os

apply_option_lem :
    (g : PortOptionGates) (o : Text) (port : PortConfig)
    → apply_option g o port ≡ record port {
      tls_validate =
          port.tls_validate
          && not (g.allow_tls_validate_disable && text_eq o option_no_tls_validate);
      funnel = port.funnel || (g.allow_funnel && text_eq o option_tailscale_funnel);
      no_auto_detect =
          port.no_auto_detect || (g.support_no_auto_detect && text_eq o option_no_auto_detect);
    }
unfolding apply_option
apply_option_lem g o port = ground (
  arith,
  text_eq_iff o option_no_tls_validate,
  text_eq_iff o option_tailscale_funnel,
  text_eq_iff o option_no_auto_detect,
)

-- The options, in any order and however often they are repeated, switch TLS validation off exactly if
-- that is asked for and allowed, switch the funnel on exactly if that is asked for and allowed, switch
-- auto-detection off exactly if that is asked for and supported, and change nothing else of the port.
pub apply_port_options_lem :
    (g : PortOptionGates) (opts : List Text) (port : PortConfig)
    → apply_port_options g opts port ≡ record port {
      tls_validate =
          port.tls_validate
          && not (g.allow_tls_validate_disable && asked option_no_tls_validate opts);
      funnel = port.funnel || (g.allow_funnel && asked option_tailscale_funnel opts);
      no_auto_detect =
          port.no_auto_detect || (g.support_no_auto_detect && asked option_no_auto_detect opts);
    }
unfolding apply_port_options asked
apply_port_options_lem g [] port = ground arith
apply_port_options_lem g (opt ∷ opts) port =
    apply_port_options_lem g opts (apply_option g (trim_space opt) port)
    ∙ rw (apply_option_lem g (trim_space opt) port) (ground arith)
