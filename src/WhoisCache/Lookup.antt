-- ===== src/WhoisCache/Lookup.antt =====
-- What a look-up answers.
use tsdproxy.Common.{
  ℕ, ◌+◌, ◌≤◌, ◌<◌, ◌≡◌, ◌⊎◌, inl, inr, refl, ap, false, Option, none, some, ltb, arith,
  if◌then◌else◌, if_both, Text, text_Eq, All-map,
}
use tsdproxy.Common.Maps.{Map, lookup}
use tsdproxy.Config.{is_empty}
use tsdproxy.Access.Forward.{Whois}
use tsdproxy.WhoisCache.{
  hour, WhoisCacheEntry, WhoisCache, hit, entry_for, answered, resolved, lookup_whois,
}
use tsdproxy.Access.Admin.{no_one}
use tsdproxy.WhoisCache.Eviction.{IsBelow, IsSound, store_entry-IsKept}

-- Time goes on.
IsBelow-later : (a b : ℕ) (m : Map Text WhoisCacheEntry) → a ≤ b → IsBelow a m → IsBelow b m
IsBelow-later a b m n h = All-map (λ ke x. ground (arith, n, x)) m h

-- An answer is the resolver's, or that of an entry of the address that has not expired.
pub data IsFresh (now : ℕ) (o : Option WhoisCacheEntry) (answer r : Option Whois) : Type 0 where
  asked : r ≡ answer → IsFresh now o answer r
  remembered :
      (e : WhoisCacheEntry)
      → o ≡ some e
      → now < e.expires_at
      → r ≡ some (if e.negative then no_one else e.who)
      → IsFresh now o answer r

pub record IsLookup (key : Text) (answer : Option Whois) (now : ℕ) (c : WhoisCache)
    (r : Option (Option Whois × WhoisCache)) : Type 0 where
  pub who : Option Whois
  pub after : WhoisCache
  pub returns : r ≡ some (who, after)
  pub fresh : IsFresh now (lookup key c.entries) answer who
  pub sound : IsSound now after
  pub same_settings : (after.ttl ≡ c.ttl) × (after.max_entries ≡ c.max_entries)

hit-cases :
    (now : ℕ) (o : Option WhoisCacheEntry)
    → (hit now o ≡ none)
      ⊎ ((e : WhoisCacheEntry) × (hit now o ≡ some (if e.negative then no_one else e.who))
          × (o ≡ some e)
          × (now < e.expires_at))
hit-cases now none = inl refl
hit-cases now (some e) =
    if_both {A = Option Whois}
      (λ h.
        (h ≡ none)
        ⊎ ((d : WhoisCacheEntry) × (h ≡ some (if d.negative then no_one else d.who))
            × (some e ≡ some d)
            × (now < d.expires_at)))
      (ltb now e.expires_at) (λ y. inr (e, refl, refl, ground (arith, y))) (λ n. inl refl)

soon :
    (c : WhoisCache) (w : Whois) (now : ℕ) → (entry_for c w now).expires_at < now + (c.ttl + hour)
soon c w now = ground arith

resolved-IsLookup :
    (key : Text) (answer : Option Whois) (now : ℕ) (c : WhoisCache)
    → IsSound now c
    → IsLookup key answer now c (resolved key answer now c)
resolved-IsLookup key none now c v = record {
  who = none;
  after = c;
  returns = refl;
  fresh = asked refl;
  sound = v;
  same_settings = (refl, refl);
}
resolved-IsLookup key (some w) now c v =
    let (d, e, s, f, g) =
      store_entry-IsKept key (entry_for c w now) now c (soon c w now) v.timely in
    record {
      who = some w;
      after = d;
      returns = ap (answered w) e;
      fresh = asked refl;
      sound = s;
      same_settings = (f, g);
    }

-- A look-up of an address always returns, with the resolver's answer or with one that has not expired, and
-- leaves a cache within its limit, if the cache was so at a time before.
pub lookup_whois-IsLookup :
    (key : Text) (answer : Option Whois) (before now : ℕ) (c : WhoisCache)
    → is_empty key ≡ false
    → before ≤ now
    → IsSound before c
    → IsLookup key answer now c (lookup_whois key answer now c)
unfolding lookup_whois
lookup_whois-IsLookup key answer before now c n t v =
    let later : IsSound now c = record {
      timely =
          IsBelow-later (before + (c.ttl + hour)) (now + (c.ttl + hour)) c.entries
            (omega (arith, t)) v.timely;
      limited = v.limited;
    } in
    rw n (elim (hit-cases now (lookup key c.entries)) [
      | inl missed ↦ rw missed (resolved-IsLookup key answer now c later)
      | inr (e, f, g, h) ↦ rw f (record {
        who = some (if e.negative then no_one else e.who);
        after = c;
        returns = refl;
        fresh = remembered e g h refl;
        sound = later;
        same_settings = (refl, refl);
      })
    ])
