-- ===== src/Udp/Sockets.antt =====
-- The port keeps track of every socket that it opens.
use mathlib.Core.Path.{subst}
use tsdproxy.Common.{
  ℕ, suc, ◌≤◌, ◌<◌, ◌≡◌, ◌≢◌, ◌⊎◌, inl, inr, refl, sym, ap, ◌∙◌, Bool, true, false, not, ◌&&◌, List,
  [], ◌∷◌, Option, none, some, arith, ◌==◌, Bool-cases, length, Text, text_eq, text_Eq, text_eq_iff,
}
use tsdproxy.Common.Maps.{Map, lookup, insert, erase, lookup-insert, lookup-erase, length-erase-le}
use tsdproxy.Config.{is_empty}
use tsdproxy.Udp.{
  ClientEntry, UdpPort, udp_max_clients, is_open, close_socket, close_each, close_all_clients,
  allowed,
}
use tsdproxy.Udp.Eviction.{IsKeyed, IsDistinct}

pub is_open-close_socket :
    (c d : ℕ) (cs : List ℕ) → is_open d (close_socket c cs) ≡ (not (c == d) && is_open d cs)
unfolding close_socket
is_open-close_socket c d [] = ground arith
is_open-close_socket c d (e ∷ cs) = ground (arith, is_open-close_socket c d cs)

pub still_open :
    (c d : ℕ) (cs : List ℕ) → is_open d (close_socket c cs) ≡ true → is_open d cs ≡ true
still_open c d cs o = ground (arith, o, is_open-close_socket c d cs)

pub not_true : (b : Bool) → (b ≡ true → ⊥) → b ≡ false
not_true true h = absurd (h refl)
not_true false h = refl

abbrev pub conn_of : Option (Text × ℕ) → ℕ
conn_of none = 0
conn_of (some (k, c)) = c

pub own_socket :
    (key k : Text) (conn c : ℕ)
    → ◌≡◌ {A = Option (Text × ℕ)} (some (key, conn)) (some (k, c))
    → (cs : List ℕ) → (not (conn == c) && is_open c cs) ≡ false
own_socket key k conn c e cs = ground (arith, ap conn_of e)

module _ {ℓ} {L : Type ℓ} where
  pub IsKeyed-insert :
      (k : Text) (e : ClientEntry L) (m : Map Text (ClientEntry L))
      → is_empty k ≡ false
      → IsKeyed m
      → IsKeyed (insert k e m)
  unfolding insert
  IsKeyed-insert k e [] n h = (n, tt)
  IsKeyed-insert k e ((j, d) ∷ m) n h = ground (arith, n, h, IsKeyed-insert k e m n h.1)

  pub IsKeyed-erase : (k : Text) (m : Map Text (ClientEntry L)) → IsKeyed m → IsKeyed (erase k m)
  unfolding erase
  IsKeyed-erase k [] h = tt
  IsKeyed-erase k ((j, d) ∷ m) h = ground (arith, h, IsKeyed-erase k m h.1)

  pub IsDistinct-insert :
      (k : Text) (e : ClientEntry L) (m : Map Text (ClientEntry L))
      → IsDistinct m
      → IsDistinct (insert k e m)
  unfolding insert lookup
  IsDistinct-insert k e [] h = (refl, tt)
  IsDistinct-insert k e ((j, d) ∷ m) h = ground (
    arith,
    h,
    IsDistinct-insert k e m h.1,
    lookup-insert k j e m,
    text_eq_iff j k,
    text_eq_iff k j,
  )

  pub IsDistinct-erase :
      (k : Text) (m : Map Text (ClientEntry L)) → IsDistinct m → IsDistinct (erase k m)
  unfolding erase
  IsDistinct-erase k [] h = tt
  IsDistinct-erase k ((j, d) ∷ m) h =
      ground (arith, h, IsDistinct-erase k m h.1, lookup-erase k j m)

  pub length-insert_new :
      (k : Text) (e : ClientEntry L) (m : Map Text (ClientEntry L))
      → length (insert k e m) ≤ suc (length m)
  unfolding insert
  length-insert_new k e [] = omega arith
  length-insert_new k e ((j, d) ∷ m) = ground (arith, length-insert_new k e m)

  length-insert_known :
      (k : Text) (e d : ClientEntry L) (m : Map Text (ClientEntry L))
      → lookup k m ≡ some d
      → length (insert k e m) ≡ length m
  unfolding insert lookup
  length-insert_known k e d [] h = cc
  length-insert_known k e d ((j, x) ∷ m) h = ground (arith, h, length-insert_known k e d m)

  -- A socket that an entry of the table has.
  abbrev pub IsHeld : ℕ → Map Text (ClientEntry L) → Type ℓ
  IsHeld c m = (k : Text) × (e : ClientEntry L) × (lookup k m ≡ some e) × (e.conn ≡ c)

  pub IsHeld-insert :
      (c : ℕ) (k : Text) (e : ClientEntry L) (m : Map Text (ClientEntry L))
      → ((d : ClientEntry L) → lookup k m ≡ some d → d.conn ≡ e.conn)
      → IsHeld c m
      → IsHeld c (insert k e m)
  IsHeld-insert c k e m same (j, d, f, g) = elim (Bool-cases (text_eq k j)) [
    | inl here ↦ (
      j,
      e,
      ground (arith, here, lookup-insert k j e m),
      ground (arith, here, text_eq_iff k j, same d, f, g),
    )
    | inr other ↦ (j, d, ground (arith, other, lookup-insert k j e m, f), g)
  ]

  pub IsHeld-erase :
      (c : ℕ) (k : Text) (m : Map Text (ClientEntry L))
      → ((d : ClientEntry L) → lookup k m ≡ some d → d.conn ≢ c)
      → IsHeld c m
      → IsHeld c (erase k m)
  IsHeld-erase c k m other (j, d, f, g) = elim (Bool-cases (text_eq k j)) [
    | inl same ↦
        absurd (other d (subst (λ i. lookup i m ≡ some d) (sym ((text_eq_iff k j).0 same)) f) g)
    | inr differs ↦ (j, d, ground (arith, differs, lookup-erase k j m, f), g)
  ]

  abbrev pub conn_or : ℕ → Option (ClientEntry L) → ℕ
  conn_or c none = c
  conn_or c (some e) = e.conn

  closed-close_each :
      (m : Map Text (ClientEntry L)) (cs : List ℕ) (c : ℕ)
      → is_open c (close_each m cs) ≡ true
      → (is_open c cs ≡ true) × ((k : Text) (e : ClientEntry L) → lookup k m ≡ some e → e.conn ≢ c)
  unfolding close_each lookup
  closed-close_each [] cs c h = (h, λ k e f. cc)
  closed-close_each ((j, x) ∷ m) cs c h =
      let (a, b) = closed-close_each m (close_socket x.conn cs) c h in
      (
        ground (arith, a, is_open-close_socket x.conn c cs),
        λ k e f g. elim (Bool-cases (text_eq j k)) [
          | inl same ↦
              ground
                (arith, same, f, g, a, is_open-close_socket x.conn c cs, ap (λ o. conn_or c o) f)
          | inr differs ↦ b k e (ground (arith, differs, f)) g
        ],
      )

  pub record IsTidy (p : UdpPort L) : Type ℓ where
    pub keyed : IsKeyed p.client_map
    pub distinct : IsDistinct p.client_map
    pub small : length p.client_map < udp_max_clients
    pub named : (k : Text) (c : ℕ) → p.dialled ≡ some (k, c) → is_empty k ≡ false
    pub tracked :
        (c : ℕ)
        → is_open c p.sockets ≡ true
        → ((k : Text) × (p.dialled ≡ some (k, c))) ⊎ IsHeld c p.client_map
    pub over : p.ended ≡ true → (p.dialled ≡ none) × ((c : ℕ) → is_open c p.sockets ≡ false)

  -- A packet of a known client changes the entry, not its socket.
  pub allowed-IsTidy :
      (allow : L → ℕ → Bool × L) (l0 : L) (key : Text) (e : ClientEntry L) (now : ℕ) (bl : Bool × L)
      (p : UdpPort L)
      → lookup key p.client_map ≡ some e
      → is_empty key ≡ false
      → IsTidy p
      → IsTidy (allowed allow l0 key e now bl p).1
  allowed-IsTidy allow l0 key e now (b, l) p f n v =
      let d = record e { last_seen = now; limiter = l } in
      record {
        keyed = IsKeyed-insert key d p.client_map n v.keyed;
        distinct = IsDistinct-insert key d p.client_map v.distinct;
        small = omega (arith, v.small, length-insert_known key d e p.client_map f);
        named = v.named;
        tracked = λ c o. elim (v.tracked c o) [
          | inl waiting ↦ inl waiting
          | inr held ↦
              inr (IsHeld-insert c key d p.client_map (λ x g. ap (conn_or 0) (sym g ∙ f)) held)
        ];
        over = v.over;
      }

  pub close_socket-IsTidy :
      (c : ℕ) (p : UdpPort L) → IsTidy p → IsTidy (record p { sockets = close_socket c p.sockets })
  close_socket-IsTidy c p v = record {
    keyed = v.keyed;
    distinct = v.distinct;
    small = v.small;
    named = v.named;
    tracked = λ d o. v.tracked d (still_open c d p.sockets o);
    over = λ e.
        ((v.over e).0, λ d. ground (arith, is_open-close_socket c d p.sockets, (v.over e).1 d));
  }

  pub close_all_clients-IsTidy : (p : UdpPort L) → IsTidy p → IsTidy (close_all_clients p)
  unfolding close_all_clients
  close_all_clients-IsTidy p v = record {
    keyed = v.keyed;
    distinct = v.distinct;
    small = v.small;
    named = v.named;
    tracked = λ c o. v.tracked c (closed-close_each p.client_map p.sockets c o).0;
    over = λ e. (
      (v.over e).0,
      λ c.
          not_true _
            (λ o. cc (sym ((v.over e).1 c) ∙ (closed-close_each p.client_map p.sockets c o).0)),
    );
  }

  -- Where the loop ends nothing is being dialled, and what the table has is closed.
  pub ends-IsTidy :
      (p : UdpPort L)
      → p.dialled ≡ none
      → IsTidy p
      → IsTidy (record (close_all_clients p) { ended = true })
  unfolding close_all_clients
  ends-IsTidy p idle v = record {
    keyed = v.keyed;
    distinct = v.distinct;
    small = v.small;
    named = v.named;
    tracked = λ c o. v.tracked c (closed-close_each p.client_map p.sockets c o).0;
    over = λ e. (idle, λ c. not_true _ (λ o. lost c o));
  }
    where
      lost : (c : ℕ) → is_open c (close_each p.client_map p.sockets) ≡ true → ⊥
      lost c o =
          let (was, other) = closed-close_each p.client_map p.sockets c o in
          elim (v.tracked c was) [
            | inl (k, e) ↦ cc (sym idle ∙ e)
            | inr (k, x, f, g) ↦ other k x f g
          ]

  -- The socket that was dialled is closed instead of being entered.
  pub give_up-IsTidy :
      (p : UdpPort L) (key : Text) (conn : ℕ)
      → p.dialled ≡ some (key, conn)
      → IsTidy p
      → IsTidy (record p { sockets = close_socket conn p.sockets; dialled = none })
  give_up-IsTidy p key conn d v = record {
    keyed = v.keyed;
    distinct = v.distinct;
    small = v.small;
    named = λ k c e. cc;
    tracked = λ c o. elim (v.tracked c (still_open conn c p.sockets o)) [
      | inl (k, e) ↦ absurd (
          cc (
            sym o
            ∙ is_open-close_socket conn c p.sockets
            ∙ own_socket key k conn c (sym d ∙ e) p.sockets))
      | inr held ↦ inr held
    ];
    over = λ e. (refl, λ c. ground (arith, is_open-close_socket conn c p.sockets, (v.over e).1 c));
  }

  pub erase-IsTidy :
      (p : UdpPort L) (key : Text)
      → lookup key p.client_map ≡ none
      → IsTidy p
      → IsTidy (record p { client_map = erase key p.client_map })
  erase-IsTidy p key e v = record {
    keyed = IsKeyed-erase key p.client_map v.keyed;
    distinct = IsDistinct-erase key p.client_map v.distinct;
    small = omega (arith, v.small, length-erase-le key p.client_map);
    named = v.named;
    tracked = λ c o. elim (v.tracked c o) [
      | inl waiting ↦ inl waiting
      | inr held ↦ inr (IsHeld-erase c key p.client_map (λ d f. cc (sym e ∙ f)) held)
    ];
    over = v.over;
  }
