-- ===== src/RateLimit/Tests.antt =====
-- Clients that come and come back, and the theorem applied there.
use tsdproxy.Common.{ℕ, ◌≡◌, refl, List, [], ◌∷◌, Text}
use tsdproxy.Common.Maps.{lookup, insert}
use tsdproxy.Strings.{codes}
use tsdproxy.RateLimit.{new_ip_rate_limiter, make_room, add_client, get_found, get}
use tsdproxy.RateLimit.Recency.{IsSynced, get_all, get_all-IsSynced}

abbrev demo_calls : List (Text × ℕ)
demo_calls = (codes "a", 0) ∷ (codes "b", 1) ∷ (codes "a", 2) ∷ []

-- The client that came back moves to the front, with the limiter that it had.
moved_to_front : get_all demo_calls new_ip_rate_limiter ≡ record {
  clients = (codes "a", 0) ∷ (codes "b", 1) ∷ [];
  lru_list = codes "a" ∷ codes "b" ∷ [];
}
unfolding get_all new_ip_rate_limiter get get_found add_client make_room lookup insert
moved_to_front = refl

get_all-IsSynced_example :
    let l = get_all demo_calls new_ip_rate_limiter in
    IsSynced l × ((get 4 (codes "b") (get 3 (codes "b") l).0).1 ≡ (get 3 (codes "b") l).1)
get_all-IsSynced_example = get_all-IsSynced demo_calls 3 4 (codes "b")
