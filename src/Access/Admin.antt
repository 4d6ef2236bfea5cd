-- ===== src/Access/Admin.antt =====
-- The checks of internal/core/admin.go. What `writeForbidden` writes is its message.
use tsdproxy.Common.{
  Bool, true, false, not, ◌&&◌, ◌||◌, List, [], ◌∷◌, Option, none, some, ltb, if◌then◌else◌, length,
  take, drop, Text, text_eq, text_Eq,
}
use tsdproxy.Common.Maps.{erase}
use tsdproxy.Strings.{codes}
use tsdproxy.Config.{is_empty, equal_fold}
use tsdproxy.Access.Addresses.{Ip, is_localhost, is_trusted_source}
use tsdproxy.Access.Headers.{
  Header, get, del_all, identity_headers, header_id, header_username, header_display_name,
  header_profile_pic_url, header_auth_token,
}
use tsdproxy.Access.Forward.{Whois, Request}

-- The part of the configuration that the checks read.
pub record AccessConfig : Type 0 where
  pub admins : List Text
  pub api_key : Text
  pub admin_allow_localhost : Bool

pub data Decision : Type 0 where
  serves : Decision
  forbids_non_admin forbids_stranger : Decision

abbrev pub localhost_user_id : Text
localhost_user_id = codes "__localhost__"

-- `slices.Contains`
abbrev pub is_among : Text → List Text → Bool
is_among x [] = false
is_among x (y ∷ ys) = text_eq y x || is_among x ys

abbrev pub no_admins : List Text → Bool
no_admins [] = true
no_admins (a ∷ as_) = false

unfoldable pub extract_bearer_token : Request → Text
extract_bearer_token r =
    let auth = get (codes "authorization") r.headers in
    if ltb 7 (length auth) && equal_fold (take 7 auth) (codes "Bearer ") then drop 7 auth else []

unfoldable pub valid_api_key : AccessConfig → Request → Bool
valid_api_key cfg r =
    if is_empty cfg.api_key then false else text_eq (extract_bearer_token r) cfg.api_key

abbrev pub no_one : Whois
no_one = record { id = []; display_name = []; username = []; profile_pic_url = [] }

abbrev pub whois_or : Option Whois → Whois
whois_or none = no_one
whois_or (some who) = who

unfoldable pub resolve_whois : Request → Whois
resolve_whois r = whois_or r.whois

unfoldable pub user_id_is_admin : AccessConfig → Text → Bool
user_id_is_admin cfg id =
    if no_admins cfg.admins
    then true
    else if text_eq id localhost_user_id
    then cfg.admin_allow_localhost
    else is_among id cfg.admins

module _ (split_host : Text → Option Text) (parse_ip : Text → Option Ip) where
  abbrev pub local_admin : AccessConfig → Request → Bool
  local_admin cfg r =
      is_trusted_source split_host parse_ip r.remote_addr && cfg.admin_allow_localhost

  unfoldable pub admin_middleware : AccessConfig → Request → Decision
  unfolding resolve_whois
  admin_middleware cfg r =
      let id = (resolve_whois r).id in
      if valid_api_key cfg r
      then serves
      else if not (no_admins cfg.admins)
      then (if not (is_empty id) && is_among id cfg.admins
          then serves
          else if not (is_empty id)
          then forbids_non_admin
          else if local_admin cfg r
          then serves
          else forbids_stranger)
      else if not (is_empty id)
      then serves
      else if local_admin cfg r
      then serves
      else forbids_stranger

  unfoldable pub viewer_middleware : AccessConfig → Request → Decision
  unfolding resolve_whois
  viewer_middleware cfg r =
      if valid_api_key cfg r
      then serves
      else if not (is_empty (resolve_whois r).id)
      then serves
      else if local_admin cfg r
      then serves
      else forbids_stranger

  unfoldable pub is_admin : AccessConfig → Request → Bool
  unfolding resolve_whois user_id_is_admin
  is_admin cfg r =
      if valid_api_key cfg r
      then true
      else let id = (resolve_whois r).id in
        if not (is_empty id) then user_id_is_admin cfg id else local_admin cfg r

  unfoldable pub valid_token : Text → Request → Bool
  valid_token token r =
      if not (is_localhost split_host parse_ip r.remote_addr)
      then false
      else if is_empty token
      then false
      else text_eq (get header_auth_token r.headers) token

  abbrev pub whois_of_headers : Header → Whois
  whois_of_headers h = record {
    id = get header_id h;
    display_name = get header_display_name h;
    username = get header_username h;
    profile_pic_url = get header_profile_pic_url h;
  }

  abbrev pub promoted : Whois → Option Whois → Option Whois
  promoted who before = if is_empty who.id then before else some who

  unfoldable pub strip_proxy_identity_headers : Text → Request → Request
  unfolding valid_token
  strip_proxy_identity_headers token r =
      let without_token = erase header_auth_token r.headers in
      record r {
        whois =
            if valid_token token r
            then promoted (whois_of_headers without_token) r.whois
            else r.whois;
        headers = del_all identity_headers without_token;
      }
