-- ===== src/Locks/Counting.antt =====
-- How many of the callers are where, and what a change of one of them does to the count.
use tsdproxy.Common.{
  ℕ, ◌+◌, ◌≤◌, ◌≡◌, refl, Bool, true, false, ◌&&◌, List, [], ◌∷◌, ◌++◌, arith, ◌==◌, Text, text_eq,
  text_Eq, All, Bool-cases, ap, inl, inr,
}
use tsdproxy.Locks.{Caller, Phase, waits, holds, leaves, gone}

abbrev pub one_if : Bool → ℕ
one_if true = 1
one_if false = 0

abbrev pub count : (Caller → Bool) → List Caller → ℕ
count f [] = 0
count f (c ∷ cs) = one_if (f c) + count f cs

pub count-append :
    (f : Caller → Bool) (xs ys : List Caller) → count f (xs ++ ys) ≡ count f xs + count f ys
count-append f [] ys = omega arith
count-append f (c ∷ xs) ys = ground (arith, count-append f xs ys)

-- Who has a reference, and who has the mutex locked.
abbrev pub refers : Phase → Bool
refers waits = true
refers holds = true
refers leaves = false
refers gone = false

abbrev pub locks_it : Phase → Bool
locks_it waits = false
locks_it holds = true
locks_it leaves = true
locks_it gone = false

abbrev pub is_holding : Phase → Bool
is_holding waits = false
is_holding holds = true
is_holding leaves = false
is_holding gone = false

abbrev pub refers_to : ℕ → Caller → Bool
refers_to rc c = refers c.phase && c.rc == rc

abbrev pub has_locked : ℕ → Caller → Bool
has_locked rc c = locks_it c.phase && c.rc == rc

abbrev pub holds_key : Text → Caller → Bool
holds_key key c = is_holding c.phase && text_eq c.key key

abbrev pub wants_key : Text → Caller → Bool
wants_key key c = refers c.phase && text_eq c.key key

module _ (P : Caller → Type 0) where
  pub All-split :
      (xs : List Caller) (c : Caller) (ys : List Caller)
      → All P (xs ++ c ∷ ys)
      → All P xs × P c × All P ys
  All-split [] c ys h = (tt, h.0, h.1)
  All-split (x ∷ xs) c ys h = ground (arith, h, All-split xs c ys)

  pub All-join :
      (xs : List Caller) (c : Caller) (ys : List Caller)
      → All P xs
      → P c
      → All P ys
      → All P (xs ++ c ∷ ys)
  All-join [] c ys a p b = (p, b)
  All-join (x ∷ xs) c ys a p b = (a.0, All-join xs c ys a.1 p b)

-- A counted caller stands somewhere.
pub count-split :
    (f : Caller → Bool) (cs : List Caller)
    → 1 ≤ count f cs
    → (xs : List Caller) × (c : Caller) × (ys : List Caller) × (cs ≡ xs ++ c ∷ ys) × (f c ≡ true)
count-split f [] h = absurd (omega (arith, h))
count-split f (c ∷ cs) h = elim (Bool-cases (f c)) [
  | inl counted ↦ ([], c, cs, refl, counted)
  | inr skipped ↦
      let (xs, d, ys, e, is) = count-split f cs (ground (arith, h, skipped)) in
      (c ∷ xs, d, ys, ap (λ l. c ∷ l) e, is)
]
