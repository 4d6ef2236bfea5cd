-- ===== src/Locks/Spec.antt =====
-- The lock that a reader of `keyedLocks` has in mind: a key and a list of who waits, is inside or is done.
use tsdproxy.Common.{
  ℕ, ◌+◌, ◌≡◌, ◌⊎◌, refl, sym, ap, ◌∙◌, Bool, false, ◌&&◌, List, [], ◌∷◌, ◌++◌, arith, Text,
  text_eq, text_Eq, map, inl, inr,
}
use tsdproxy.Locks.{
  System, Caller, Phase, waits, holds, leaves, gone, at, acquires, releases, is_stale, unlocks,
  Step, calls, proceeds, Reach,
}
use tsdproxy.Locks.Counting.{one_if, count, holds_key, is_holding, All-split}
use tsdproxy.Locks.Invariant.{IsEntered, IsValid}
use tsdproxy.Locks.Steps.{Reach-IsValid}
use tsdproxy.Locks.Exclusion.{count-holds_some}

pub data Status : Type 0 where
  outside : Status
  inside : Status
  done : Status

abbrev pub is_inside : Text → Text × Status → Bool
is_inside key (k, outside) = false
is_inside key (k, inside) = text_eq k key
is_inside key (k, done) = false

abbrev pub insiders : Text → List (Text × Status) → ℕ
insiders key [] = 0
insiders key (u ∷ us) = one_if (is_inside key u) + insiders key us

pub data Change (us ws : List (Text × Status)) : Type 0 where
  arrives : (key : Text) → ws ≡ (key, outside) ∷ us → Change us ws
  enters :
      (vs bs : List (Text × Status)) (key : Text)
      → us ≡ vs ++ (key, outside) ∷ bs
      → insiders key us ≡ 0
      → ws ≡ vs ++ (key, inside) ∷ bs
      → Change us ws
  exits :
      (vs bs : List (Text × Status)) (key : Text)
      → us ≡ vs ++ (key, inside) ∷ bs
      → ws ≡ vs ++ (key, done) ∷ bs
      → Change us ws

abbrev pub status_of : Phase → Status
status_of waits = outside
status_of holds = inside
status_of leaves = done
status_of gone = done

abbrev pub user_of : Caller → Text × Status
user_of c = (c.key, status_of c.phase)

-- What is left when pointers, counts and the second half of `unlock` are forgotten.
abbrev pub view : System → List (Text × Status)
view s = map user_of s.callers

user_inside :
    (k j : Text) (p : Phase) → is_inside k (j, status_of p) ≡ (is_holding p && text_eq j k)
user_inside k j waits = refl
user_inside k j holds = refl
user_inside k j leaves = refl
user_inside k j gone = refl

insiders-map : (k : Text) (cs : List Caller) → insiders k (map user_of cs) ≡ count (holds_key k) cs
insiders-map k [] = refl
insiders-map k (c ∷ cs) = rw (user_inside k c.key c.phase, insiders-map k cs) refl

map-split :
    (xs ys : List Caller) (c : Caller)
    → map user_of (xs ++ c ∷ ys) ≡ map user_of xs ++ user_of c ∷ map user_of ys
map-split [] ys c = refl
map-split (x ∷ xs) ys c = ap (λ l. user_of x ∷ l) (map-split xs ys c)

nobody_inside :
    (s : System) (xs ys : List Caller) (key : Text) (rc : ℕ)
    → IsValid s
    → s.callers ≡ xs ++ at key rc waits ∷ ys
    → (s.kl.heap rc).locked ≡ false
    → insiders key (view s) ≡ 0
nobody_inside s xs ys key rc v e free =
    let h = All-split (IsEntered s.kl) xs (at key rc waits) ys (rw⁻¹ e v.entered) in
    ground (
      arith,
      insiders-map key s.callers,
      free,
      v.exclusive rc,
      count-holds_some s.kl key rc s.callers (h.1.1 refl) v.entered,
    )

-- Every step that the callers of `keyedLocks` can make is one of the specified lock, or invisible there.
pub Step-Change : (s t : System) → Reach s → Step s t → Change (view s) (view t) ⊎ (view s ≡ view t)
Step-Change s t r (calls key e) = inl (arrives key (ap view e))
Step-Change s t r (proceeds (acquires xs ys key rc e free f)) = inl (
    enters (map user_of xs) (map user_of ys) key
      (ap (map user_of) e ∙ map-split xs ys (at key rc waits))
      (nobody_inside s xs ys key rc (Reach-IsValid s r) e free)
      (ap view f ∙ map-split xs ys (at key rc holds)))
Step-Change s t r (proceeds (releases xs ys key rc kl e g f)) = inl (
    exits (map user_of xs) (map user_of ys) key
      (ap (map user_of) e ∙ map-split xs ys (at key rc holds))
      (ap view f ∙ map-split xs ys (at key rc leaves)))
Step-Change s t r (proceeds (is_stale xs ys key rc e g f)) = inl (
    exits (map user_of xs) (map user_of ys) key
      (ap (map user_of) e ∙ map-split xs ys (at key rc holds))
      (ap view f ∙ map-split xs ys (at key rc gone)))
Step-Change s t r (proceeds (unlocks xs ys key rc e f)) = inr (
    ap (map user_of) e
    ∙ map-split xs ys (at key rc leaves)
    ∙ sym (ap view f ∙ map-split xs ys (at key rc gone)))
