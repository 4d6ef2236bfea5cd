-- ===== src/Strings/Splits.antt =====
-- `strings.Split` and its kin on a text that lacks the separator, or shows it once.
use tsdproxy.Common.{
  ℕ, ◌≡◌, refl, ◌≢◌, false, [], ◌∷◌, ◌++◌, append_assoc, append-nil, none, some, arith, Text, All,
}
use tsdproxy.Strings.{has_prefix, contains, split_from, split, split_n2}

abbrev pub Lacks : ℕ → Text → Type 0
Lacks b = All (λ c. c ≢ b)

split_from-append :
    (sep : ℕ) (p rest cur : Text)
    → Lacks sep p
    → split_from (sep ∷ []) 0 cur (p ++ rest) ≡ split_from (sep ∷ []) 0 (cur ++ p) rest
unfolding split_from has_prefix
split_from-append sep [] rest cur h = rw append-nil
split_from-append sep (c ∷ p) rest cur h =
    ground (arith, split_from-append sep p rest (cur ++ c ∷ []), append_assoc cur (c ∷ []) p)

pub split_of_Lacks : (sep : ℕ) (p : Text) → Lacks sep p → split p (sep ∷ []) ≡ p ∷ []
unfolding split split_from
split_of_Lacks sep p h = ground (arith, append-nil p, split_from-append sep p [] [] h)

split_at_sep :
    (sep : ℕ) (s cur : Text)
    → split_from (sep ∷ []) 0 cur (sep ∷ s) ≡ cur ∷ split_from (sep ∷ []) 0 [] s
unfolding split_from has_prefix
split_at_sep sep s cur = ground arith

pub split-append :
    (sep : ℕ) (p rest : Text)
    → Lacks sep p
    → split (p ++ sep ∷ rest) (sep ∷ []) ≡ p ∷ split rest (sep ∷ [])
unfolding split
split-append sep p rest h = rw (split_from-append sep p _ [] h) (split_at_sep sep rest p)

pub split_n2_of_Lacks : (sep : ℕ) (p : Text) → Lacks sep p → split_n2 p sep ≡ (p, none)
unfolding split_n2
split_n2_of_Lacks sep [] h = refl
split_n2_of_Lacks sep (c ∷ p) h = ground (arith, split_n2_of_Lacks sep p)

pub split_n2-append :
    (sep : ℕ) (p rest : Text) → Lacks sep p → split_n2 (p ++ sep ∷ rest) sep ≡ (p, some rest)
unfolding split_n2
split_n2-append sep [] rest h = ground arith
split_n2-append sep (c ∷ p) rest h = ground (arith, split_n2-append sep p rest)

-- A text that lacks the first byte of another one does not contain it.
pub contains_of_Lacks : (b : ℕ) (sub s : Text) → Lacks b s → contains (b ∷ sub) s ≡ false
unfolding contains has_prefix
contains_of_Lacks b sub [] h = refl
contains_of_Lacks b sub (c ∷ s) h = ground (arith, contains_of_Lacks b sub s)
