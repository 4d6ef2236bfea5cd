-- ===== src/RateLimit.antt =====
-- internal/proxymanager/ratelimit.go: the table of clients of a rate limiter, with the least recently
-- seen one leaving when it is full. `make` is `rate.NewLimiter`, which is not code of the repository: a
-- limiter is of its type `L`. The list has the keys of the entries, the latest first.
pub mod Recency
mod Tests
use tsdproxy.Common.{
  ℕ, Bool, true, false, not, ◌&&◌, ◌||◌, List, [], ◌∷◌, Option, none, some, leb, if◌then◌else◌,
  length, Text, text_eq, text_Eq,
}
use tsdproxy.Common.Maps.{Map, lookup, insert, erase}

abbrev pub http_rate_limit_clients : ℕ
http_rate_limit_clients = 4096

pub record IpRateLimiter {ℓ} (L : Type ℓ) : Type ℓ where
  pub clients : Map Text L
  pub lru_list : List Text

-- `list.Remove` of the entry with a key
abbrev pub remove_key : Text → List Text → List Text
remove_key k [] = []
remove_key k (x ∷ xs) = if text_eq x k then xs else x ∷ remove_key k xs

-- `list.Back`
abbrev pub back : List Text → Option Text
back [] = none
back (x ∷ []) = some x
back (x ∷ y ∷ xs) = back (y ∷ xs)

module _ {ℓ} {L : Type ℓ} where
  unfoldable pub new_ip_rate_limiter : IpRateLimiter L
  new_ip_rate_limiter = record { clients = []; lru_list = [] }

  unfoldable pub drop_oldest : Option Text → IpRateLimiter L → IpRateLimiter L
  drop_oldest none l = l
  drop_oldest (some k) l = record l {
    clients = erase k l.clients;
    lru_list = remove_key k l.lru_list;
  }

  -- The test of the size, before a client is added.
  unfoldable pub make_room : IpRateLimiter L → IpRateLimiter L
  unfolding drop_oldest
  make_room l =
      if leb http_rate_limit_clients (length l.clients) then drop_oldest (back l.lru_list) l else l

  unfoldable pub add_client : L → Text → IpRateLimiter L → IpRateLimiter L
  add_client limiter k l = record l {
    clients = insert k limiter l.clients;
    lru_list = k ∷ l.lru_list;
  }

  unfoldable pub get_found : L → Text → Option L → IpRateLimiter L → IpRateLimiter L × L
  unfolding add_client make_room
  get_found make k (some limiter) l = (record l { lru_list = k ∷ remove_key k l.lru_list }, limiter)
  get_found make k none l = (add_client make k (make_room l), make)

  unfoldable pub get : L → Text → IpRateLimiter L → IpRateLimiter L × L
  unfolding get_found
  get make k l = get_found make k (lookup k l.clients) l

  unfoldable pub close : IpRateLimiter L → IpRateLimiter L
  close l = record { clients = []; lru_list = [] }
