-- ===== src/Router/Counting.antt =====
-- How often a connection is somewhere, and what a change of one listener does to that.
use tsdproxy.Common.{
  ℕ, zero, suc, ◌+◌, ◌≤◌, ◌≡◌, refl, sym, ap, Bool, true, false, List, [], ◌∷◌, ◌++◌, Option, none,
  some, arith, ◌==◌, get_elem?, set, Text, All,
}
use tsdproxy.Router.Listeners.{Conn, VirtualListener, is_in, close_conn, close_conns}

abbrev pub one_if : Bool → ℕ
one_if true = 1
one_if false = 0

abbrev pub count_ids : ℕ → List ℕ → ℕ
count_ids i [] = 0
count_ids i (j ∷ js) = one_if (j == i) + count_ids i js

abbrev pub count_conns : ℕ → List Conn → ℕ
count_conns i [] = 0
count_conns i (c ∷ cs) = one_if (c.id == i) + count_conns i cs

abbrev pub count_on_way : ℕ → List (Conn × ℕ) → ℕ
count_on_way i [] = 0
count_on_way i ((c, p) ∷ cs) = one_if (c.id == i) + count_on_way i cs

abbrev pub count_made : ℕ → List VirtualListener → ℕ
count_made i [] = 0
count_made i (vl ∷ vls) = count_conns i vl.ch + count_made i vls

pub is_in-count : (i : ℕ) (js : List ℕ) → count_ids i js ≡ 0 → is_in i js ≡ false
is_in-count i [] h = refl
is_in-count i (j ∷ js) h = ground (arith, h, is_in-count i js)

pub count-close_conn :
    (i j : ℕ) (js : List ℕ)
    → count_ids j js ≡ 0
    → count_ids i (close_conn j js) ≡ one_if (j == i) + count_ids i js
count-close_conn i j js h = rw (is_in-count j js h) refl

pub count-close_conns :
    (cs : List Conn) (js : List ℕ)
    → ((i : ℕ) → count_conns i cs + count_ids i js ≤ 1)
    → (i : ℕ) → count_ids i (close_conns cs js) ≡ count_conns i cs + count_ids i js
count-close_conns [] js h i = omega arith
count-close_conns (c ∷ cs) js h i =
    let unclosed = not_closed c cs js (h c.id) in
    omega (
      arith,
      count-close_conns cs (close_conn c.id js)
          (λ k. ground (arith, h k, count-close_conn k c.id js unclosed)) i,
      count-close_conn i c.id js unclosed,
    )
  where
    not_closed :
        (d : Conn) (ds : List Conn) (ks : List ℕ)
        → count_conns d.id (d ∷ ds) + count_ids d.id ks ≤ 1
        → count_ids d.id ks ≡ 0
    not_closed d ds ks g = ground (arith, g)

pub count_conns-append :
    (i : ℕ) (cs ds : List Conn) → count_conns i (cs ++ ds) ≡ count_conns i cs + count_conns i ds
count_conns-append i [] ds = omega arith
count_conns-append i (c ∷ cs) ds = omega (arith, count_conns-append i cs ds)

pub count_on_way-append :
    (i : ℕ) (cs ds : List (Conn × ℕ))
    → count_on_way i (cs ++ ds) ≡ count_on_way i cs + count_on_way i ds
count_on_way-append i [] ds = omega arith
count_on_way-append i ((c, p) ∷ cs) ds = omega (arith, count_on_way-append i cs ds)

pub count_made-append :
    (i : ℕ) (vls wls : List VirtualListener)
    → count_made i (vls ++ wls) ≡ count_made i vls + count_made i wls
count_made-append i [] wls = omega arith
count_made-append i (vl ∷ vls) wls = omega (arith, count_made-append i vls wls)

abbrev or_listener : VirtualListener → Option VirtualListener → VirtualListener
or_listener d none = d
or_listener d (some a) = a

some_same : {a b : VirtualListener} → some a ≡ some b → a ≡ b
some_same {a} {b} h = ap (or_listener a) h

pub count_made-set :
    (i : ℕ) (vls : List VirtualListener) (p : ℕ) (vl wl : VirtualListener)
    → get_elem? vls p ≡ some vl
    → count_made i (set vls p wl) + count_conns i vl.ch ≡ count_made i vls + count_conns i wl.ch
count_made-set i [] p vl wl e = cc
count_made-set i (x ∷ vls) zero vl wl e = omega (arith, ap (λ v. count_conns i v.ch) (some_same e))
count_made-set i (x ∷ vls) (suc p) vl wl e = omega (arith, count_made-set i vls p vl wl e)

-- The part of a listener that its steps do not change, at a pointer.
abbrev pub domain_at : List VirtualListener → ℕ → Option Text
domain_at [] p = none
domain_at (vl ∷ vls) zero = some vl.domain
domain_at (vl ∷ vls) (suc p) = domain_at vls p

pub domain_at-get :
    (vls : List VirtualListener) (p : ℕ) (vl : VirtualListener)
    → get_elem? vls p ≡ some vl
    → domain_at vls p ≡ some vl.domain
domain_at-get [] p vl e = cc
domain_at-get (x ∷ vls) zero vl e = ap (λ v. some v.domain) (some_same e)
domain_at-get (x ∷ vls) (suc p) vl e = domain_at-get vls p vl e

pub domain_at-set :
    (vls : List VirtualListener) (p q : ℕ) (vl : VirtualListener)
    → domain_at vls p ≡ some vl.domain
    → domain_at (set vls p vl) q ≡ domain_at vls q
domain_at-set [] p q vl e = refl
domain_at-set (x ∷ vls) zero zero vl e = sym e
domain_at-set (x ∷ vls) zero (suc q) vl e = refl
domain_at-set (x ∷ vls) (suc p) zero vl e = refl
domain_at-set (x ∷ vls) (suc p) (suc q) vl e = domain_at-set vls p q vl e

module _ (P : VirtualListener → Type 0) where
  pub All-set :
      (vls : List VirtualListener) (p : ℕ) (vl : VirtualListener)
      → All P vls
      → P vl
      → All P (set vls p vl)
  All-set [] p vl a h = tt
  All-set (x ∷ vls) zero vl a h = (h, a.1)
  All-set (x ∷ vls) (suc p) vl a h = (a.0, All-set vls p vl a.1 h)

  pub All-get :
      (vls : List VirtualListener) (p : ℕ) (vl : VirtualListener)
      → All P vls
      → get_elem? vls p ≡ some vl
      → P vl
  All-get [] p vl a e = cc
  All-get (x ∷ vls) zero vl a e = rw⁻¹ (some_same e) a.0
  All-get (x ∷ vls) (suc p) vl a e = All-get vls p vl a.1 e
