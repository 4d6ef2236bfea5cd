-- ===== src/WhoisCache/Tests.antt =====
-- A cache for one address, and the theorem applied there.
use tsdproxy.Common.{refl, false, [], ◌∷◌, some, arith, text_Eq, inr}
use tsdproxy.Strings.{codes}
use tsdproxy.Access.Forward.{Whois}
use tsdproxy.WhoisCache.{WhoisCacheEntry, WhoisCache, new_whois_cache, lookup_whois}
use tsdproxy.WhoisCache.Eviction.{IsSound}
use tsdproxy.WhoisCache.Lookup.{IsLookup, lookup_whois-IsLookup}

abbrev bob : Whois
bob = record {
  id = codes "u2";
  display_name = codes "Bob";
  username = codes "bob";
  profile_pic_url = [];
}

abbrev old : WhoisCacheEntry
old = record { expires_at = 70; who = bob; negative = false }

-- The limit is one address, and the entry of the first has expired.
abbrev full : WhoisCache
full = record (new_whois_cache 60 1) { entries = (codes "100.64.0.1", old) ∷ [] }

abbrev full_sound : IsSound 10 full
full_sound = record { timely = (omega arith, tt); limited = inr (omega arith) }

lookup_whois-IsLookup_example :
    IsLookup
      (codes "100.64.0.2")
      (some bob)
      80
      full
      (lookup_whois (codes "100.64.0.2") (some bob) 80 full)
lookup_whois-IsLookup_example =
    lookup_whois-IsLookup (codes "100.64.0.2") (some bob) 10 80 full refl (omega arith) full_sound
