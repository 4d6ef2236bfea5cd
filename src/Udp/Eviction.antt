-- ===== src/Udp/Eviction.antt =====
-- Which session gives way when the table is full.
use mathlib.Core.Path.{subst}
use tsdproxy.Common.{
  ℕ, ◌≤◌, ◌≡◌, refl, sym, ap, false, ◌||◌, [], ◌∷◌, none, some, ltb, arith, if_both, length, Text,
  text_Eq, text_eq_iff, All, All-map,
}
use tsdproxy.Common.Maps.{Map, lookup, erase}
use tsdproxy.Config.{is_empty}
use tsdproxy.Udp.{
  ClientEntry, UdpPort, close_socket, older, oldest_of, evict_found, evict_oldest_client,
}

older-bounds :
    (best : Text × ℕ) (k : Text) (t : ℕ)
    → is_empty k ≡ false
    → is_empty best.0 ≡ false
    → (((older best k t).1 ≤ best.1) × ((older best k t).1 ≤ t))
      × (is_empty (older best k t).0 ≡ false)
older-bounds best k t h n = ground (arith, h, n)

module _ {ℓ} {L : Type ℓ} where
  -- The keys that the table can have: an address is never empty.
  abbrev pub IsKeyed : Map Text (ClientEntry L) → Type 0
  IsKeyed [] = Unit
  IsKeyed ((k, e) ∷ m) = (is_empty k ≡ false) × IsKeyed m

  oldest_of-least :
      (m : Map Text (ClientEntry L)) (best : Text × ℕ)
      → IsKeyed m
      → is_empty best.0 ≡ false
      → (is_empty (oldest_of m best).0 ≡ false)
        × ((oldest_of m best).1 ≤ best.1)
        × All (λ ke. (oldest_of m best).1 ≤ ke.1.last_seen) m
  unfolding oldest_of
  oldest_of-least [] best h n = (n, omega arith, tt)
  oldest_of-least ((k, e) ∷ m) best h n =
      let next = older best k e.last_seen in
      let (least_time, named) = older-bounds best k e.last_seen h.0 n in
      let (a, b, c) = oldest_of-least m next h.1 named in
      (a, omega (arith, b, least_time), (omega (arith, b, least_time), c))

  -- The key that is found is the first one, or one of the table.
  oldest_of-key :
      (P : Text → ℕ → Type ℓ) (m : Map Text (ClientEntry L)) (best : Text × ℕ)
      → All (λ ke. P ke.0 ke.1.last_seen) m
      → P best.0 best.1
      → P (oldest_of m best).0 (oldest_of m best).1
  unfolding oldest_of
  oldest_of-key P [] best h b = b
  oldest_of-key P ((k, e) ∷ m) best h b = oldest_of-key P m (older best k e.last_seen) h.1 (
      if_both {A = Text × ℕ} (λ x. P x.0 x.1) (is_empty best.0 || ltb e.last_seen best.1) (λ y. h.0)
        (λ y. b))

  -- Every entry of a table can be looked up under its key, if no key is there twice.
  abbrev pub IsDistinct : Map Text (ClientEntry L) → Type ℓ
  IsDistinct [] = Unit
  IsDistinct ((k, e) ∷ m) = (lookup k m ≡ none) × IsDistinct m

  abbrev Entry : Map Text (ClientEntry L) → Text → ℕ → Type ℓ
  Entry m k t = (e : ClientEntry L) × (lookup k m ≡ some e) × (e.last_seen ≡ t)

  Entry-cons :
      (k : Text) (e : ClientEntry L) (m : Map Text (ClientEntry L)) (j : Text) (t : ℕ)
      → lookup k m ≡ none
      → Entry m j t
      → Entry ((k, e) ∷ m) j t
  unfolding lookup
  Entry-cons k e m j t new (d, f, g) = (d, ground (arith, new, f, text_eq_iff k j), g)

  Entry-all :
      (m : Map Text (ClientEntry L)) → IsDistinct m → All (λ ke. Entry m ke.0 ke.1.last_seen) m
  unfolding lookup
  Entry-all [] h = tt
  Entry-all ((k, e) ∷ m) h = (
    (e, ground (arith, text_eq_iff k k), refl),
    All-map (λ ke x. Entry-cons k e m ke.0 ke.1.last_seen h.0 x) m (Entry-all m h.1),
  )

  -- The search in a table that is not empty finds an entry, and none was seen longer ago.
  oldest_found :
      (m : Map Text (ClientEntry L))
      → IsKeyed m
      → IsDistinct m
      → 1 ≤ length m
      → (e : ClientEntry L) × (lookup (oldest_of m ([], 0)).0 m ≡ some e)
        × All (λ ke. e.last_seen ≤ ke.1.last_seen) m
  unfolding oldest_of
  oldest_found [] h d n = absurd (omega (arith, n))
  oldest_found ((k, x) ∷ m) h d n =
      let all = Entry-all ((k, x) ∷ m) d in
      let (a, b, c) = oldest_of-least m (k, x.last_seen) h.1 h.0 in
      let (e, f, g) = oldest_of-key (Entry ((k, x) ∷ m)) m (k, x.last_seen) all.1 all.0 in
      (e, f, subst (λ t. All (λ ke. t ≤ ke.1.last_seen) ((k, x) ∷ m)) (sym g) (b, c))

  -- What an eviction does.
  pub record IsEvicted (p q : UdpPort L) : Type ℓ where
    pub key : Text
    pub entry : ClientEntry L
    pub was_there : lookup key p.client_map ≡ some entry
    pub oldest : All (λ ke. entry.last_seen ≤ ke.1.last_seen) p.client_map
    pub removed : q ≡ record p {
      sockets = close_socket entry.conn p.sockets;
      client_map = erase key p.client_map;
    }

  -- In a table with at least one client, each under its own key, none empty, an eviction closes the socket of a
  -- client and takes its entry out, and none of the clients was seen before that one.
  pub evict_oldest_client-IsEvicted :
      (p : UdpPort L)
      → IsKeyed p.client_map
      → IsDistinct p.client_map
      → 1 ≤ length p.client_map
      → IsEvicted p (evict_oldest_client p)
  unfolding evict_oldest_client
  evict_oldest_client-IsEvicted p h d n =
      let (e, f, g) = oldest_found p.client_map h d n in
      record {
        key = (oldest_of p.client_map ([], 0)).0;
        entry = e;
        was_there = f;
        oldest = g;
        removed = ap (λ o. evict_found (oldest_of p.client_map ([], 0)).0 o p) f;
      }
