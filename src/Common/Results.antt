-- ===== src/Common/Results.antt =====
-- Errors as values: what a Go function returns beside its result.
use mathlib.Core.Path.{◌≡◌, refl}
use mathlib.Core.Bool.{Bool, true, false}
use mathlib.Core.Option.{Option, none, some}
use mathlib.Core.Logic.{◌⊎◌, inl, inr}
use native.Mathlib.Omega.{arith}

pub data Result {ℓ κ} (E : Type ℓ) (R : Type κ) : Type (ℓ ⊔ κ) where
  ok : R → Result E R
  err : E → Result E R

abbrev pub wrap {ℓ κ μ} : {D : Type ℓ} {E : Type κ} {A : Type μ} → (D → E) → Result D A → Result E A
wrap f (ok a) = ok a
wrap f (err d) = err (f d)

infixl 5 ◌>>=◌ ◌>>◌
-- `x, err := m; if err != nil { return err }`, and the code behind it.
abbrev pub ◌>>=◌ {ℓ κ μ} :
    {Err : Type ℓ} {R : Type κ} {S : Type μ} → Result Err R → (R → Result Err S) → Result Err S
err problem >>= next = err problem
ok result >>= next = next result

abbrev pub ◌>>◌ {ℓ μ} :
    {Err : Type ℓ} {S : Type μ} → Result Err (Unit {0}) → Result Err S → Result Err S
first >> second = first >>= λ _. second

-- `if err != nil { return fmt.Errorf(…) }`: the error is wrapped in another one.
abbrev pub or_fail {ℓ κ} : {E : Type ℓ} {A : Type κ} → Option A → E → Result E A
or_fail none e = err e
or_fail (some a) e = ok a

-- `if !b { return e }`
abbrev pub guard {ℓ} : {Err : Type ℓ} → Bool → Err → Result Err (Unit {0})
guard false problem = err problem
guard true problem = ok tt

-- A chain that gives a result has one in its first part, and the rest goes on from there.
pub >>=-eq-ok {ℓ κ μ} :
    {Err : Type ℓ} {R : Type κ} {S : Type μ} (first : Result Err R) (next : R → Result Err S)
    {s : S}
    → first >>= next ≡ ok s
    → (r : R) × (first ≡ ok r) × (next r ≡ ok s)
>>=-eq-ok (err problem) next chain = cc
>>=-eq-ok (ok r) next chain = (r, refl, chain)

pub Result-cases {ℓ κ} :
    {E : Type ℓ} {A : Type κ} (r : Result E A) → ((a : A) × (r ≡ ok a)) ⊎ ((e : E) × (r ≡ err e))
Result-cases (ok a) = inl (a, refl)
Result-cases (err e) = inr (e, refl)

-- What holds of the result, if there is one.
abbrev pub Ensures {ℓ κ μ} : {E : Type ℓ} {A : Type κ} → (A → Type μ) → Result E A → Type μ
Ensures P (ok a) = P a
Ensures P (err e) = Unit

pub Ensures-ok {ℓ κ μ} :
    {E : Type ℓ} {A : Type κ} (P : A → Type μ) (r : Result E A) (a : A)
    → Ensures P r
    → r ≡ ok a
    → P a
Ensures-ok P (ok b) a h e = ground (arith, h)
Ensures-ok P (err d) a h e = cc

pub ok-injective {ℓ κ} :
    {E : Type ℓ} {A : Type κ} {a b : A} → ◌≡◌ {A = Result E A} (ok a) (ok b) → a ≡ b
ok-injective h = ground arith

pub Ensures->>= {ℓ κ μ ν ρ} :
    {E : Type ℓ} {A : Type κ} {B : Type μ} (Q : A → Type ν) (P : B → Type ρ) (m : Result E A)
    (f : A → Result E B)
    → Ensures Q m
    → ((a : A) → Q a → Ensures P (f a))
    → Ensures P (m >>= f)
Ensures->>= Q P (ok a) f q h = h a q
Ensures->>= Q P (err e) f q h = tt

pub guard-eq-ok {ℓ κ} :
    {E : Type ℓ} {A : Type κ} (b : Bool) (e : E) (k : Result E A) {a : A}
    → (guard b e >> k) ≡ ok a
    → (b ≡ true) × (k ≡ ok a)
guard-eq-ok true e k h = (refl, h)
guard-eq-ok false e k h = cc

pub Ensures-wrap {ℓ κ μ ν} :
    {D : Type ℓ} {E : Type κ} {A : Type μ} (P : A → Type ν) (f : D → E) (r : Result D A)
    → Ensures P r
    → Ensures P (wrap f r)
Ensures-wrap P f (ok a) h = h
Ensures-wrap P f (err d) h = tt
