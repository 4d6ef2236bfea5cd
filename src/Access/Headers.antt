-- ===== src/Access/Headers.antt =====
-- `http.Header`, and the names of internal/consts/proxymanager.go.
use tsdproxy.Common.{List, [], ◌∷◌, Option, none, some, Text, text_Eq}
use tsdproxy.Common.Maps.{Map, lookup, insert, erase}
use tsdproxy.Strings.{codes}

abbrev pub Header : Type 0
Header = Map Text (List Text)

abbrev pub values_of : Option (List Text) → List Text
values_of none = []
values_of (some vs) = vs

abbrev pub first_value : List Text → Text
first_value [] = []
first_value (v ∷ vs) = v

-- `Values`
unfoldable pub values : Text → Header → List Text
values k h = values_of (lookup k h)

-- `Get`
unfoldable pub get : Text → Header → Text
unfolding values
get k h = first_value (values k h)

-- `Set`
unfoldable pub set_header : Text → Text → Header → Header
set_header k v h = insert k (v ∷ []) h

-- `Del` of each name.
unfoldable pub del_all : List Text → Header → Header
del_all [] h = h
del_all (k ∷ ks) h = del_all ks (erase k h)

-- `Set` of each pair, in order.
unfoldable pub set_all : List (Text × Text) → Header → Header
unfolding set_header
set_all [] h = h
set_all ((k, v) ∷ kvs) h = set_all kvs (set_header k v h)

abbrev pub header_id : Text
header_id = codes "x-tsdproxy-id"

abbrev pub header_username : Text
header_username = codes "x-tsdproxy-username"

abbrev pub header_display_name : Text
header_display_name = codes "x-tsdproxy-displayname"

abbrev pub header_profile_pic_url : Text
header_profile_pic_url = codes "x-tsdproxy-profilepicurl"

abbrev pub header_auth_token : Text
header_auth_token = codes "x-tsdproxy-auth-token"

abbrev pub header_remote_user : Text
header_remote_user = codes "remote-user"

abbrev pub header_x_forwarded_user : Text
header_x_forwarded_user = codes "x-forwarded-user"

abbrev pub header_x_auth_request_user : Text
header_x_auth_request_user = codes "x-auth-request-user"

abbrev pub header_x_forwarded_email : Text
header_x_forwarded_email = codes "x-forwarded-email"

abbrev pub header_x_auth_request_email : Text
header_x_auth_request_email = codes "x-auth-request-email"

abbrev pub header_x_forwarded_preferred_username : Text
header_x_forwarded_preferred_username = codes "x-forwarded-preferred-username"

abbrev pub header_real_ip : Text
header_real_ip = codes "x-real-ip"

abbrev pub header_x_forwarded_for : Text
header_x_forwarded_for = codes "x-forwarded-for"

abbrev pub identity_headers : List Text
identity_headers = header_id ∷ header_username ∷ header_display_name ∷ header_profile_pic_url ∷ []

abbrev pub trusted_proxy_headers : List Text
trusted_proxy_headers =
    header_id ∷ header_username ∷ header_display_name ∷ header_profile_pic_url ∷ header_auth_token
    ∷ header_remote_user ∷ header_x_forwarded_user ∷ header_x_auth_request_user
    ∷ header_x_forwarded_email ∷ header_x_auth_request_email ∷ header_x_forwarded_preferred_username
    ∷ header_x_forwarded_for ∷ header_real_ip ∷ []
