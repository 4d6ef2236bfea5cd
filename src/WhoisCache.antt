-- ===== src/WhoisCache.antt =====
-- The cache of Tailscale identities: internal/proxyproviders/tailscale/whois_cache.go. Calls for one address
-- that come at once are one call here, as golang.org/x/sync/singleflight makes them.
use tsdproxy.Common.{
  ℕ, zero, suc, ◌+◌, ◌*◌, ◌≡◌, Bool, true, false, not, ◌&&◌, ◌||◌, List, [], ◌∷◌, Option, none,
  some, ltb, leb, ◌==◌, if◌then◌else◌, length, Text, text_Eq,
}
use tsdproxy.Common.Maps.{Map, lookup, insert, erase}
use tsdproxy.Config.{is_empty}
use tsdproxy.Health.{second}
use tsdproxy.Access.Forward.{Whois}
use tsdproxy.Access.Admin.{no_one}
pub mod Eviction
pub mod Lookup
mod Tests

abbrev pub whois_negative_ttl : ℕ
whois_negative_ttl = 10 * second

abbrev pub hour : ℕ
hour = 3600 * second

pub record WhoisCacheEntry : Type 0 where
  pub expires_at : ℕ
  pub who : Whois
  pub negative : Bool

pub record WhoisCache : Type 0 where
  pub entries : Map Text WhoisCacheEntry
  pub ttl : ℕ
  pub max_entries : ℕ

abbrev pub new_whois_cache : ℕ → ℕ → WhoisCache
new_whois_cache ttl max_entries = record { entries = []; ttl = ttl; max_entries = max_entries }

-- The first loop of `evict`.
unfoldable pub drop_expired : ℕ → Map Text WhoisCacheEntry → Map Text WhoisCacheEntry
drop_expired now [] = []
drop_expired now ((k, e) ∷ m) =
    let rest = drop_expired now m in if ltb e.expires_at now then rest else (k, e) ∷ rest

-- The entry that expires first, among those that expire before the time of the pair.
abbrev pub sooner : Text × ℕ → Text → ℕ → Text × ℕ
sooner (oldest, oldest_time) k expires_at =
    if ltb expires_at oldest_time then (k, expires_at) else (oldest, oldest_time)

unfoldable pub oldest_of : Map Text WhoisCacheEntry → Text × ℕ → Text × ℕ
oldest_of [] best = best
oldest_of ((k, e) ∷ m) best = oldest_of m (sooner best k e.expires_at)

-- The second loop; none when the fuel is used up.
unfoldable pub evict_loop : ℕ → ℕ → ℕ → Map Text WhoisCacheEntry → Option (Map Text WhoisCacheEntry)
unfolding oldest_of
evict_loop zero limit bound m = none
evict_loop (suc fuel) limit bound m =
    let rest = evict_loop fuel limit bound (erase (oldest_of m ([], bound)).0 m) in
    if leb (length m) limit then some m else rest

abbrev pub with_entries : WhoisCache → Option (Map Text WhoisCacheEntry) → Option WhoisCache
with_entries c none = none
with_entries c (some m) = some (record c { entries = m })

-- With at most one round for each entry.
unfoldable pub evict : ℕ → WhoisCache → Option WhoisCache
unfolding drop_expired evict_loop
evict now c =
    let m = drop_expired now c.entries in
    if c.max_entries == 0 || leb (length m) c.max_entries
    then some (record c { entries = m })
    else with_entries c (evict_loop (length m + 1) c.max_entries (now + (c.ttl + hour)) m)

unfoldable pub store_entry : Text → WhoisCacheEntry → ℕ → WhoisCache → Option WhoisCache
unfolding evict
store_entry key entry now c =
    let stored = record c { entries = insert key entry c.entries } in
    if ltb 0 c.max_entries && ltb c.max_entries (length stored.entries)
    then evict now stored
    else some stored

-- What the cache knows of an address.
abbrev pub hit : ℕ → Option WhoisCacheEntry → Option Whois
hit now none = none
hit now (some e) =
    if ltb now e.expires_at then some (if e.negative then no_one else e.who) else none

abbrev pub entry_for : WhoisCache → Whois → ℕ → WhoisCacheEntry
entry_for c who now = record {
  expires_at = now + (if is_empty who.id then whois_negative_ttl else c.ttl);
  who = who;
  negative = is_empty who.id;
}

abbrev pub answered : Whois → Option WhoisCache → Option (Option Whois × WhoisCache)
answered who none = none
answered who (some c) = some (some who, c)

-- The answer of `resolve`, none on an error; the times of its call and of the two parts of the storing.
abbrev pub resolved : Text → Option Whois → ℕ → WhoisCache → Option (Option Whois × WhoisCache)
resolved key none now c = some (none, c)
resolved key (some who) now c = answered who (store_entry key (entry_for c who now) now c)

abbrev pub or_resolve :
    Text → Option Whois → Option Whois → ℕ → WhoisCache → Option (Option Whois × WhoisCache)
or_resolve key (some who) answer now c = some (some who, c)
or_resolve key none answer now c = resolved key answer now c

-- The identity, none on an error, and the cache. `key` is the normalized address.
unfoldable pub lookup_whois :
    Text → Option Whois → ℕ → WhoisCache → Option (Option Whois × WhoisCache)
unfolding store_entry
lookup_whois key answer now c =
    if is_empty key
    then some (some no_one, c)
    else or_resolve key (hit now (lookup key c.entries)) answer now c
