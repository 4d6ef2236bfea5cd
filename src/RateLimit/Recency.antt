-- ===== src/RateLimit/Recency.antt =====
-- The table of clients is bounded, and keeps the latest clients.
use tsdproxy.Common.{
  suc, ◌≤◌, ◌<◌, ◌≡◌, ◌≢◌, inl, inr, refl, ◌∙◌, Bool, true, false, ◌||◌, List, [], ◌∷◌, Option,
  none, some, arith, leb, if◌then◌else◌, length, Text, text_eq, text_Eq, text_eq_iff, if_both,
  Option-cases,
}
use tsdproxy.Common.Maps.{
  Map, lookup, insert, erase, lookup-insert, lookup-erase, length-erase-le, length-erase-lt,
}
use tsdproxy.RateLimit.{
  http_rate_limit_clients, IpRateLimiter, remove_key, back, new_ip_rate_limiter, drop_oldest,
  make_room, add_client, get_found, get,
}

abbrev pub listed : Text → List Text → Bool
listed k [] = false
listed k (x ∷ xs) = text_eq x k || listed k xs

abbrev pub IsDistinct : List Text → Type 0
IsDistinct [] = Unit
IsDistinct (x ∷ xs) = (listed x xs ≡ false) × IsDistinct xs

listed-remove_key :
    (j k : Text) (xs : List Text)
    → IsDistinct xs
    → listed j (remove_key k xs) ≡ (if text_eq k j then false else listed j xs)
listed-remove_key j k [] d = ground arith
listed-remove_key j k (x ∷ xs) (n, d) =
    ground (arith, text_eq_iff x k, text_eq_iff k j, text_eq_iff x j, listed-remove_key j k xs d, n)

remove_key-IsDistinct : (k : Text) (xs : List Text) → IsDistinct xs → IsDistinct (remove_key k xs)
remove_key-IsDistinct k [] d = tt
remove_key-IsDistinct k (x ∷ xs) (n, d) =
    if_both IsDistinct (text_eq x k) (λ _. d)
      (λ e. ((listed-remove_key x k xs d ∙ ground (arith, n)), remove_key-IsDistinct k xs d))

listed-back : (xs : List Text) (k : Text) → back xs ≡ some k → listed k xs ≡ true
listed-back [] k h = cc
listed-back (x ∷ []) k h = ground (arith, text_eq_iff x k, h)
listed-back (x ∷ y ∷ xs) k h = ground (arith, listed-back (y ∷ xs) k h)

back_nonempty : (k : Text) (xs : List Text) → listed k xs ≡ true → back xs ≢ none
back_nonempty k [] h = cc
back_nonempty k (x ∷ []) h = λ e. ground (arith, e)
back_nonempty k (x ∷ y ∷ xs) h = back_nonempty y (y ∷ xs) (ground (arith, text_eq_iff y y))

length-insert-le {ℓ} :
    {L : Type ℓ} (k : Text) (v : L) (m : Map Text L) → length (insert k v m) ≤ suc (length m)
unfolding insert
length-insert-le k v [] = omega arith
length-insert-le k v ((j, w) ∷ m) = ground (arith, length-insert-le k v m)

module _ {ℓ} {L : Type ℓ} where
  -- The list has exactly the keys of the table, once each, and the table does not exceed its limit.
  pub record IsSynced (l : IpRateLimiter L) : Type ℓ where
    pub distinct : IsDistinct l.lru_list
    pub kept : (k : Text) → listed k l.lru_list ≡ true → lookup k l.clients ≢ none
    pub known : (k : Text) → lookup k l.clients ≢ none → listed k l.lru_list ≡ true
    pub bounded : length l.clients ≤ http_rate_limit_clients

  drop_oldest-IsSynced :
      (k : Text) (l : IpRateLimiter L) → IsSynced l → IsSynced (drop_oldest (some k) l)
  unfolding drop_oldest
  drop_oldest-IsSynced k l v = record {
    distinct = remove_key-IsDistinct k l.lru_list v.distinct;
    kept = λ j h e. ground (
      arith,
      listed-remove_key j k l.lru_list v.distinct,
      lookup-erase k j l.clients,
      v.kept j,
      h,
      e,
      text_eq_iff k j,
    );
    known = λ j h. ground (
      arith,
      listed-remove_key j k l.lru_list v.distinct,
      lookup-erase k j l.clients,
      v.known j,
      h,
      text_eq_iff k j,
    );
    bounded = omega (arith, length-erase-le k l.clients, v.bounded);
  }

  first_known : (k : Text) (w : L) (m : Map Text L) → lookup k ((k, w) ∷ m) ≢ none
  unfolding lookup
  first_known k w m h = ground (arith, text_eq_iff k k, h)

  full_back :
      (m : Map Text L) (xs : List Text)
      → http_rate_limit_clients ≤ length m
      → ((k : Text) → lookup k m ≢ none → listed k xs ≡ true)
      → back xs ≢ none
  full_back [] xs h known = absurd (omega (arith, h))
  full_back ((k, w) ∷ m) xs h known = back_nonempty k xs (known k (first_known k w m))

  lookup-length : (k : Text) (m : Map Text L) → lookup k m ≢ none → length (erase k m) < length m
  lookup-length k m h = elim (Option-cases (lookup k m)) [
    | inl e ↦ absurd (h e)
    | inr (w, e) ↦ length-erase-lt k w m e
  ]

  dropped :
      (o : Option Text) (l : IpRateLimiter L)
      → back l.lru_list ≡ o
      → o ≢ none
      → IsSynced l
      → IsSynced (drop_oldest o l) × (length (drop_oldest o l).clients < http_rate_limit_clients)
  unfolding drop_oldest
  dropped none l e h v = absurd (h refl)
  dropped (some k) l e h v =
      let here = v.kept k (listed-back l.lru_list k e) in
      (drop_oldest-IsSynced k l v, omega (arith, lookup-length k l.clients here, v.bounded))

  make_room-IsSynced :
      (l : IpRateLimiter L)
      → IsSynced l
      → IsSynced (make_room l) × (length (make_room l).clients < http_rate_limit_clients)
  unfolding make_room
  make_room-IsSynced l v =
      if_both (λ (r : IpRateLimiter L). IsSynced r × (length r.clients < http_rate_limit_clients))
        (leb http_rate_limit_clients (length l.clients))
        (λ e.
          dropped (back l.lru_list) l refl
            (full_back l.clients l.lru_list (ground (arith, e)) v.known) v)
        (λ e. (v, ground (arith, e)))

  add_client-IsSynced :
      (make : L) (k : Text) (l : IpRateLimiter L)
      → listed k l.lru_list ≡ false
      → length l.clients < http_rate_limit_clients
      → IsSynced l
      → IsSynced (add_client make k l)
  unfolding add_client
  add_client-IsSynced make k l absent room v = record {
    distinct = (absent, v.distinct);
    kept =
        λ j h e. ground (arith, lookup-insert k j make l.clients, v.kept j, h, e, text_eq_iff k j);
    known = λ j h. ground (arith, lookup-insert k j make l.clients, v.known j, h, text_eq_iff k j);
    bounded = omega (arith, length-insert-le k make l.clients, room);
  }

  dropped_listed :
      (k : Text) (o : Option Text) (l : IpRateLimiter L)
      → IsSynced l
      → listed k l.lru_list ≡ false
      → listed k (drop_oldest o l).lru_list ≡ false
  unfolding drop_oldest
  dropped_listed k none l v h = h
  dropped_listed k (some j) l v h = listed-remove_key k j l.lru_list v.distinct ∙ ground (arith, h)

  make_room-listed :
      (k : Text) (l : IpRateLimiter L)
      → IsSynced l
      → listed k l.lru_list ≡ false
      → listed k (make_room l).lru_list ≡ false
  unfolding make_room
  make_room-listed k l v h =
      if_both (λ (r : IpRateLimiter L). listed k r.lru_list ≡ false)
        (leb http_rate_limit_clients (length l.clients))
        (λ _. dropped_listed k (back l.lru_list) l v h) (λ _. h)

  get_found-IsSynced :
      (make : L) (k : Text) (o : Option L) (l : IpRateLimiter L)
      → lookup k l.clients ≡ o
      → IsSynced l
      → IsSynced (get_found make k o l).0
  unfolding get_found
  get_found-IsSynced make k none l e v =
      let absent : listed k l.lru_list ≡ false = ground (arith, v.kept k, e) in
      let (w, room) = make_room-IsSynced l v in
      add_client-IsSynced make k (make_room l) (make_room-listed k l v absent) room w
  get_found-IsSynced make k (some limiter) l e v =
      let moved = λ (j : Text). listed-remove_key j k l.lru_list v.distinct in
      let here : lookup k l.clients ≢ none = λ n. ground (arith, e, n) in
      record {
        distinct = (
          moved k ∙ ground (arith, text_eq_iff k k),
          remove_key-IsDistinct k l.lru_list v.distinct,
        );
        kept = λ j h n. ground (arith, moved j, v.kept j, h, n, text_eq_iff k j, e);
        known = λ j h. ground (arith, moved j, v.known j, h, text_eq_iff k j);
        bounded = v.bounded;
      }

  -- The calls, with what `rate.NewLimiter` would make at each.
  unfoldable pub get_all : List (Text × L) → IpRateLimiter L → IpRateLimiter L
  get_all [] l = l
  get_all ((k, make) ∷ cs) l = get_all cs (get make k l).0

  get_all_from : (cs : List (Text × L)) (l : IpRateLimiter L) → IsSynced l → IsSynced (get_all cs l)
  unfolding get_all get
  get_all_from [] l v = v
  get_all_from ((k, make) ∷ cs) l v =
      get_all_from cs (get make k l).0 (get_found-IsSynced make k (lookup k l.clients) l refl v)

  get_again_found :
      (make other : L) (k : Text) (o : Option L) (l : IpRateLimiter L)
      → lookup k l.clients ≡ o
      → lookup k (get_found make k o l).0.clients ≡ some (get_found make k o l).1
  unfolding get_found add_client
  get_again_found make other k none l e =
      ground (arith, lookup-insert k k make (make_room l).clients, text_eq_iff k k)
  get_again_found make other k (some limiter) l e = e

  get_again :
      (make other : L) (k : Text) (l : IpRateLimiter L)
      → (get other k (get make k l).0).1 ≡ (get make k l).1
  unfolding get get_found
  get_again make other k l = rw (get_again_found make other k (lookup k l.clients) l refl) refl

  empty-IsSynced : IsSynced new_ip_rate_limiter
  unfolding new_ip_rate_limiter lookup
  empty-IsSynced = record {
    distinct = tt;
    kept = λ k h. cc;
    known = λ k h. absurd (h refl);
    bounded = omega arith;
  }

  -- Whatever clients are seen, in whatever order, the recency list has exactly the keys of the table,
  -- each once, the table never has more than 4096 clients, and a client that is seen twice in a row gets
  -- the same limiter.
  pub get_all-IsSynced :
      (cs : List (Text × L)) (make other : L) (k : Text)
      → let l = get_all cs new_ip_rate_limiter in
        IsSynced l × ((get other k (get make k l).0).1 ≡ (get make k l).1)
  get_all-IsSynced cs make other k =
      let l = get_all cs new_ip_rate_limiter in
      (get_all_from cs new_ip_rate_limiter empty-IsSynced, get_again make other k l)
