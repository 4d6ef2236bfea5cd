-- ===== src/Access/Roles.antt =====
-- How the checks for administrators and viewers go together.
use tsdproxy.Common.{◌≡◌, ◌≢◌, ◌↔◌, ◌⊎◌, true, false, Option, arith, Text, text_eq_iff}
use tsdproxy.Config.{is_empty}
use tsdproxy.Access.Addresses.{Ip, is_trusted_source}
use tsdproxy.Access.Forward.{Request}
use tsdproxy.Access.Admin.{
  AccessConfig, serves, localhost_user_id, is_among, no_admins, valid_api_key, resolve_whois,
  user_id_is_admin, admin_middleware, viewer_middleware, is_admin,
}

module _ (split_host : Text → Option Text) (parse_ip : Text → Option Ip) where
  -- The middleware for administrators and the predicate `IsAdmin` agree on every request, if its user has
  -- not the reserved id of the local administrator.
  pub admin_middleware-is_admin :
      (cfg : AccessConfig) (r : Request)
      → (resolve_whois r).id ≢ localhost_user_id
      → (admin_middleware split_host parse_ip cfg r ≡ serves)
        ↔ (is_admin split_host parse_ip cfg r ≡ true)
  unfolding admin_middleware is_admin user_id_is_admin
  admin_middleware-is_admin cfg r h =
      ground (arith, text_eq_iff (resolve_whois r).id localhost_user_id)

  -- Who is served: one with the API key; a user whom the list of administrators, if there is one, has; or
  -- no user, from a trusted network, if the operator allows that.
  pub admin_middleware_lem :
      (cfg : AccessConfig) (r : Request)
      → (admin_middleware split_host parse_ip cfg r ≡ serves) ↔ (
          (valid_api_key cfg r ≡ true)
          ⊎ ((is_empty (resolve_whois r).id ≡ false)
              × ((no_admins cfg.admins ≡ true) ⊎ (is_among (resolve_whois r).id cfg.admins ≡ true)))
          ⊎ ((is_empty (resolve_whois r).id ≡ true)
              × (is_trusted_source split_host parse_ip r.remote_addr ≡ true)
              × (cfg.admin_allow_localhost ≡ true)))
  unfolding admin_middleware
  admin_middleware_lem cfg r = ground arith

  -- Whoever may administrate may view.
  pub admin-viewer :
      (cfg : AccessConfig) (r : Request)
      → admin_middleware split_host parse_ip cfg r ≡ serves
      → viewer_middleware split_host parse_ip cfg r ≡ serves
  unfolding admin_middleware viewer_middleware
  admin-viewer cfg r h = ground arith
