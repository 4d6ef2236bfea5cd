-- ===== src/WhoisCache/Eviction.antt =====
-- The cache stays within its limit, and its eviction ends.
use tsdproxy.Common.{
  ℕ, zero, suc, ◌+◌, ◌≤◌, ◌<◌, ◌≡◌, ◌⊎◌, inr, refl, ◌&&◌, ◌||◌, [], ◌∷◌, Option, some, ltb, leb,
  arith, ◌==◌, if_both, length, Text, text_eq, text_Eq, text_eq_iff, All, All-map,
}
use tsdproxy.Common.Maps.{Map, lookup, insert, erase, length-erase-lt}
use tsdproxy.WhoisCache.{
  hour, WhoisCacheEntry, WhoisCache, drop_expired, sooner, oldest_of, evict_loop, with_entries,
  evict, store_entry,
}

-- Every entry expires before the bound that the search starts from.
abbrev pub IsBelow : ℕ → Map Text WhoisCacheEntry → Type 0
IsBelow b m = All (λ ke. ke.1.expires_at < b) m

IsBelow-erase :
    (b : ℕ) (k : Text) (m : Map Text WhoisCacheEntry) → IsBelow b m → IsBelow b (erase k m)
unfolding erase
IsBelow-erase b k [] h = tt
IsBelow-erase b k ((j, e) ∷ m) h = ground (arith, h, IsBelow-erase b k m h.1)

IsBelow-insert :
    (b : ℕ) (k : Text) (e : WhoisCacheEntry) (m : Map Text WhoisCacheEntry)
    → e.expires_at < b
    → IsBelow b m
    → IsBelow b (insert k e m)
unfolding insert
IsBelow-insert b k e [] n h = (n, tt)
IsBelow-insert b k e ((j, d) ∷ m) n h = ground (arith, n, h, IsBelow-insert b k e m n h.1)

IsBelow-drop_expired :
    (b now : ℕ) (m : Map Text WhoisCacheEntry) → IsBelow b m → IsBelow b (drop_expired now m)
unfolding drop_expired
IsBelow-drop_expired b now [] h = tt
IsBelow-drop_expired b now ((j, d) ∷ m) h = ground (arith, h, IsBelow-drop_expired b now m h.1)

-- A key of the map.
abbrev IsKey : Map Text WhoisCacheEntry → Text → Type 0
IsKey m k = (e : WhoisCacheEntry) × (lookup k m ≡ some e)

IsKey-cons :
    (k : Text) (e : WhoisCacheEntry) (m : Map Text WhoisCacheEntry) (j : Text)
    → IsKey m j
    → IsKey ((k, e) ∷ m) j
unfolding lookup
IsKey-cons k e m j (d, f) =
    if_both {A = Option WhoisCacheEntry} (λ o. (x : WhoisCacheEntry) × (o ≡ some x)) (text_eq k j)
      (λ s. (e, refl)) (λ s. (d, f))

IsKey-head : (k : Text) (e : WhoisCacheEntry) (m : Map Text WhoisCacheEntry) → IsKey ((k, e) ∷ m) k
unfolding lookup
IsKey-head k e m = (e, ground (arith, text_eq_iff k k))

IsKey-all : (m : Map Text WhoisCacheEntry) → All (λ ke. IsKey m ke.0) m
IsKey-all [] = tt
IsKey-all ((k, e) ∷ m) =
    (IsKey-head k e m, All-map (λ ke x. IsKey-cons k e m ke.0 x) m (IsKey-all m))

oldest_of-key :
    (P : Text → Type 0) (m : Map Text WhoisCacheEntry) (best : Text × ℕ)
    → All (λ ke. P ke.0) m
    → P best.0
    → P (oldest_of m best).0
unfolding oldest_of
oldest_of-key P [] best h b = b
oldest_of-key P ((k, e) ∷ m) best h b =
    oldest_of-key P m (sooner best k e.expires_at) h.1
      (if_both {A = Text × ℕ} (λ x. P x.0) (ltb e.expires_at best.1) (λ y. h.0) (λ y. b))

-- A table that is not empty has an entry below the bound, so the search finds one of its keys.
oldest_of-IsKey :
    (b : ℕ) (m : Map Text WhoisCacheEntry)
    → IsBelow b m
    → 1 ≤ length m
    → IsKey m (oldest_of m ([], b)).0
unfolding oldest_of
oldest_of-IsKey b [] h n = absurd (omega (arith, n))
oldest_of-IsKey b ((k, e) ∷ m) h n =
    let all = IsKey-all ((k, e) ∷ m) in
    if_both {A = Text × ℕ} (λ x. IsKey ((k, e) ∷ m) (oldest_of m x).0) (ltb e.expires_at b)
      (λ s. oldest_of-key (IsKey ((k, e) ∷ m)) m (k, e.expires_at) all.1 all.0)
      (λ s. ground (arith, s, h))

abbrev Ends : ℕ → ℕ → Option (Map Text WhoisCacheEntry) → Type 0
Ends limit b o = (m : Map Text WhoisCacheEntry) × (o ≡ some m) × (length m ≤ limit) × IsBelow b m

evict_loop-Ends :
    (fuel limit b : ℕ) (m : Map Text WhoisCacheEntry)
    → length m < fuel
    → IsBelow b m
    → Ends limit b (evict_loop fuel limit b m)
unfolding evict_loop
evict_loop-Ends zero limit b m n h = absurd (omega (arith, n))
evict_loop-Ends (suc fuel) limit b m n h =
    if_both {A = Option (Map Text WhoisCacheEntry)} (Ends limit b) (leb (length m) limit)
      (λ small. (m, refl, ground (arith, small), h))
      (λ large.
        let k = (oldest_of m ([], b)).0 in
        let (e, f) = oldest_of-IsKey b m h (ground (arith, large)) in
        evict_loop-Ends fuel limit b (erase k m) (omega (arith, n, length-erase-lt k e m f))
          (IsBelow-erase b k m h))

-- What holds of a cache at a time: no entry expires later than its longest life from now, and the limit is kept.
pub record IsSound (now : ℕ) (c : WhoisCache) : Type 0 where
  pub timely : IsBelow (now + (c.ttl + hour)) c.entries
  pub limited : (c.max_entries ≡ 0) ⊎ (length c.entries ≤ c.max_entries)

-- The result of an operation: a cache with the same settings, in which that holds.
abbrev pub IsKept : ℕ → WhoisCache → Option WhoisCache → Type 0
IsKept now c o =
    (d : WhoisCache) × (o ≡ some d)
    × IsSound now d
    × (d.ttl ≡ c.ttl)
    × (d.max_entries ≡ c.max_entries)

with_entries-IsKept :
    (now : ℕ) (c : WhoisCache) (o : Option (Map Text WhoisCacheEntry))
    → Ends c.max_entries (now + (c.ttl + hour)) o
    → IsKept now c (with_entries c o)
with_entries-IsKept now c o (m, e, n, h) =
    rw e (record c { entries = m }, refl, record { timely = h; limited = inr n }, refl, refl)

evict-IsKept :
    (now : ℕ) (c : WhoisCache)
    → IsBelow (now + (c.ttl + hour)) c.entries
    → IsKept now c (evict now c)
unfolding evict
evict-IsKept now c h =
    let m = drop_expired now c.entries in
    let b = now + (c.ttl + hour) in
    let below = IsBelow-drop_expired b now c.entries h in
    if_both {A = Option WhoisCache} (IsKept now c)
      (c.max_entries == 0 || leb (length m) c.max_entries)
      (λ small. (
        record c { entries = m },
        refl,
        record { timely = below; limited = ground (arith, small) },
        refl,
        refl,
      ))
      (λ large.
        with_entries-IsKept now c (evict_loop (length m + 1) c.max_entries b m)
          (evict_loop-Ends (length m + 1) c.max_entries b m (omega arith) below))

pub store_entry-IsKept :
    (key : Text) (e : WhoisCacheEntry) (now : ℕ) (c : WhoisCache)
    → e.expires_at < now + (c.ttl + hour)
    → IsBelow (now + (c.ttl + hour)) c.entries
    → IsKept now c (store_entry key e now c)
unfolding store_entry
store_entry-IsKept key e now c n h =
    let stored = record c { entries = insert key e c.entries } in
    let below = IsBelow-insert (now + (c.ttl + hour)) key e c.entries n h in
    if_both {A = Option WhoisCache} (IsKept now c)
      (ltb 0 c.max_entries && ltb c.max_entries (length stored.entries))
      (λ over. evict-IsKept now stored below)
      (λ fits.
        (stored, refl, record { timely = below; limited = ground (arith, fits) }, refl, refl))
