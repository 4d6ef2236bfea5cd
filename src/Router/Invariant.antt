-- ===== src/Router/Invariant.antt =====
-- No connection is lost, none is handed out twice, and each goes to the listener of its host.
use mathlib.Core.Path.{subst}
use tsdproxy.Common.{
  ℕ, zero, suc, ◌+◌, ◌≤◌, ◌≡◌, refl, sym, ap, ◌∙◌, Bool, true, false, List, [], ◌∷◌, ◌++◌, Option,
  none, some, arith, if◌then◌else◌, if_both, length, get_elem?, set, Text, text_eq, text_Eq,
  text_eq_iff, All, All-append, All-map,
}
use tsdproxy.Common.Maps.{Map, lookup, erase, lookup-insert, lookup-erase}
use tsdproxy.Router.Listeners.{
  Conn, VirtualListener, conn_buffer_size, new_virtual_listener, shut, PortRouter, new_port_router,
  is_in, close_conn, close_conns, register_at, close_listener, unregister_at, close_each, close_all,
  send_to,
}
use tsdproxy.Router.Counting.{
  one_if, count_ids, count_conns, count_on_way, count_made, count-close_conn, count-close_conns,
  count_made-append, count_made-set, domain_at, domain_at-get, domain_at-set, All-set,
}

-- In how many places a connection is.
abbrev pub places : ℕ → PortRouter → ℕ
places i r =
    count_on_way i r.on_way
    + (count_made i r.made + (count_ids i r.accepted + count_ids i r.closed))

-- How many connections may wait.
abbrev pub room : Bool → ℕ
room true = 0
room false = conn_buffer_size

abbrev pub IsQueue : VirtualListener → Type 0
IsQueue vl = All (λ c. c.host ≡ vl.domain) vl.ch × (length vl.ch ≤ room vl.closed)

abbrev pub IsAddressed : List VirtualListener → Conn × ℕ → Type 0
IsAddressed made (c, p) = domain_at made p ≡ some c.host

pub record IsSound (ids : List ℕ) (r : PortRouter) : Type 0 where
  pub placed : (i : ℕ) → places i r ≡ one_if (is_in i ids)
  pub queued : All IsQueue r.made
  pub addressed : All (IsAddressed r.made) r.on_way
  pub listed : (d : Text) (p : ℕ) → lookup d r.listeners ≡ some p → domain_at r.made p ≡ some d

pub one_if-le : (b : Bool) → one_if b ≤ 1
one_if-le true = omega arith
one_if-le false = omega arith

pub new_port_router-IsSound : IsSound [] new_port_router
unfolding lookup
new_port_router-IsSound = record {
  placed = λ i. refl;
  queued = tt;
  addressed = tt;
  listed = λ d p e. cc;
}

-- A listener that is appended takes the place of no other.
domain_at-append :
    (vls : List VirtualListener) (vl : VirtualListener) (p : ℕ) (d : Text)
    → domain_at vls p ≡ some d
    → domain_at (vls ++ vl ∷ []) p ≡ some d
domain_at-append [] vl p d e = cc
domain_at-append (x ∷ vls) vl zero d e = e
domain_at-append (x ∷ vls) vl (suc p) d e = domain_at-append vls vl p d e

at_end :
    (vls : List VirtualListener) (vl : VirtualListener)
    → domain_at (vls ++ vl ∷ []) (length vls) ≡ some vl.domain
at_end [] vl = refl
at_end (x ∷ vls) vl = at_end vls vl

abbrev or_zero : Option ℕ → ℕ
or_zero none = 0
or_zero (some n) = n

some_number : {a b : ℕ} → some a ≡ some b → a ≡ b
some_number e = ap or_zero e

abbrev or_text : Option Text → Text
or_text none = []
or_text (some t) = t

pub some_text : {a b : Text} → some a ≡ some b → a ≡ b
some_text e = ap or_text e

listed_new :
    (ids : List ℕ) (r : PortRouter) (d k : Text) (p : ℕ)
    → IsSound ids r
    → (b : Bool) → text_eq d k ≡ b
    → (if b then some (length r.made) else lookup k r.listeners) ≡ some p
    → domain_at (r.made ++ new_virtual_listener d ∷ []) p ≡ some k
listed_new ids r d k p v true same f =
    subst (λ q. domain_at (r.made ++ new_virtual_listener d ∷ []) q ≡ some k) (some_number f)
      (at_end r.made (new_virtual_listener d) ∙ ap some ((text_eq_iff d k).0 same))
listed_new ids r d k p v false other f =
    domain_at-append r.made (new_virtual_listener d) p k (v.listed k p f)

pub register_at-IsSound :
    (ids : List ℕ) (r : PortRouter) (d : Text) (o : Option ℕ)
    → lookup d r.listeners ≡ o
    → IsSound ids r
    → IsSound ids (register_at o d r).1
register_at-IsSound ids r d (some p) e v = v
register_at-IsSound ids r d none e v =
    let new = new_virtual_listener d in
    record {
      placed = λ i. omega (arith, v.placed i, count_made-append i r.made (new ∷ []));
      queued = All-append IsQueue r.made (new ∷ []) v.queued ((tt, omega arith), tt);
      addressed =
          All-map (λ cp h. domain_at-append r.made new cp.1 cp.0.host h) r.on_way v.addressed;
      listed = λ k p f.
          listed_new ids r d k p v (text_eq d k) refl
            (sym (lookup-insert d k (length r.made) r.listeners) ∙ f);
    }

-- Closing a listener moves what waited in it to the closed connections.
pub close_listener-IsSound :
    (ids : List ℕ) (r : PortRouter) (p : ℕ) (o : Option VirtualListener)
    → get_elem? r.made p ≡ o
    → IsSound ids r
    → IsSound ids (close_listener p o r)
close_listener-IsSound ids r p none e v = v
close_listener-IsSound ids r p (some vl) e v =
    if_both (IsSound ids) vl.closed (λ h. v) (λ h. shut_down)
  where
    here : domain_at r.made p ≡ some vl.domain
    here = domain_at-get r.made p vl e

    few : (i : ℕ) → count_conns i vl.ch + count_ids i r.closed ≤ 1
    few i =
        omega (arith, v.placed i, one_if-le (is_in i ids), count_made-set i r.made p vl (shut vl) e)

    shut_down :
        IsSound ids
          (record r { made = set r.made p (shut vl); closed = close_conns vl.ch r.closed })
    shut_down = record {
      placed = λ i. omega (
        arith,
        v.placed i,
        count_made-set i r.made p vl (shut vl) e,
        count-close_conns vl.ch r.closed few i,
      );
      queued = All-set IsQueue r.made p (shut vl) v.queued (tt, omega arith);
      addressed =
          All-map (λ cp g. domain_at-set r.made p cp.1 (shut vl) here ∙ g) r.on_way v.addressed;
      listed = λ k q f. domain_at-set r.made p q (shut vl) here ∙ v.listed k q f;
    }

-- Entries may be taken out.
fewer-IsSound :
    (ids : List ℕ) (r : PortRouter) (m : Map Text ℕ)
    → ((k : Text) (q : ℕ) → lookup k m ≡ some q → lookup k r.listeners ≡ some q)
    → IsSound ids r
    → IsSound ids (record r { listeners = m })
fewer-IsSound ids r m sub v = record {
  placed = v.placed;
  queued = v.queued;
  addressed = v.addressed;
  listed = λ k q f. v.listed k q (sub k q f);
}

close_listener-listeners :
    (p : ℕ) (o : Option VirtualListener) (r : PortRouter)
    → (close_listener p o r).listeners ≡ r.listeners
close_listener-listeners p none r = refl
close_listener-listeners p (some vl) r =
    if_both (λ (s : PortRouter). s.listeners ≡ r.listeners) vl.closed (λ h. refl) (λ h. refl)

pub unregister_at-IsSound :
    (ids : List ℕ) (r : PortRouter) (d : Text) (o : Option ℕ)
    → IsSound ids r
    → IsSound ids (unregister_at o d r).1
unregister_at-IsSound ids r d none v = v
unregister_at-IsSound ids r d (some p) v =
    let o = get_elem? r.made p in
    fewer-IsSound ids (close_listener p o r) (erase d r.listeners)
      (λ k q f.
        ap (lookup k) (close_listener-listeners p o r)
        ∙ ground (arith, f, lookup-erase d k r.listeners))
      (close_listener-IsSound ids r p o refl v)

close_each-IsSound :
    (ids : List ℕ) (m : Map Text ℕ) (r : PortRouter) → IsSound ids r → IsSound ids (close_each m r)
close_each-IsSound ids [] r v = v
close_each-IsSound ids ((d, p) ∷ m) r v =
    close_each-IsSound ids m (close_listener p (get_elem? r.made p) r)
      (close_listener-IsSound ids r p (get_elem? r.made p) refl v)

pub close_all-IsSound : (ids : List ℕ) (r : PortRouter) → IsSound ids r → IsSound ids (close_all r)
unfolding close_all lookup
close_all-IsSound ids r v =
    fewer-IsSound ids (close_each r.listeners r) [] (λ k q f. cc)
      (close_each-IsSound ids r.listeners r v)

absent :
    (ids : List ℕ) (r : PortRouter) (id : ℕ)
    → is_in id ids ≡ false
    → IsSound ids r
    → count_ids id r.closed ≡ 0
absent ids r id new v = omega (arith, v.placed id, ap one_if new)

pub arrive_closed :
    (ids : List ℕ) (r : PortRouter) (id : ℕ)
    → is_in id ids ≡ false
    → IsSound ids r
    → IsSound (id ∷ ids) (record r { closed = close_conn id r.closed })
arrive_closed ids r id new v = record {
  placed =
      λ i. ground (arith, v.placed i, new, count-close_conn i id r.closed (absent ids r id new v));
  queued = v.queued;
  addressed = v.addressed;
  listed = v.listed;
}

-- A new connection is either on its way to the listener that stands under its host, or closed.
pub send_to-IsSound :
    (ids : List ℕ) (r : PortRouter) (c : Conn) (o : Option ℕ)
    → lookup c.host r.listeners ≡ o
    → is_in c.id ids ≡ false
    → IsSound ids r
    → IsSound (c.id ∷ ids) (send_to o c r)
send_to-IsSound ids r c none e new v = arrive_closed ids r c.id new v
send_to-IsSound ids r c (some p) e new v = record {
  placed = λ i. ground (arith, v.placed i, new);
  queued = v.queued;
  addressed = (v.listed c.host p e, v.addressed);
  listed = v.listed;
}
