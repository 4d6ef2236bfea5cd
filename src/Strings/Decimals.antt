-- ===== src/Strings/Decimals.antt =====
-- `strconv`: the decimal print of a number is read back, and consists of digits.
use tsdproxy.Common.{
  ℕ, zero, suc, ◌+◌, ◌/◌, ◌%◌, ◌^◌, ◌≤◌, ◌<◌, ◌≡◌, refl, ◌≢◌, [], ◌∷◌, some, arith, Text, All,
}
use tsdproxy.Common.Int.{pos}
use tsdproxy.Strings.{atoi, itoa, digits, read_digits, read_number}

abbrev pub IsDigit : ℕ → Type 0
IsDigit c = (b'0' ≤ c) × (c ≤ b'9')

digits-IsDigit : (f n : ℕ) (out : Text) → All IsDigit out → All IsDigit (digits f n out)
unfolding digits
digits-IsDigit zero n out h = h
digits-IsDigit (suc f) n out h = ground (arith, digits-IsDigit f (n / 10) ((b'0' + n % 10) ∷ out))

pub itoa-IsDigit : (n : ℕ) → All IsDigit (itoa n)
unfolding itoa
itoa-IsDigit n = digits-IsDigit (suc n) n [] tt

read-digits : (f n : ℕ) (out : Text) → n < f → read_digits (digits f n out) 0 ≡ read_digits out n
unfolding digits read_digits
read-digits zero n out h = elim h [ ]
read-digits (suc f) n out h = ground (arith, read-digits f (n / 10) ((b'0' + n % 10) ∷ out))

digits-ne-nil : (f n : ℕ) (out : Text) → out ≢ [] → digits f n out ≢ []
unfolding digits
digits-ne-nil zero n out h = h
digits-ne-nil (suc f) n out h = ground (arith, digits-ne-nil f (n / 10) ((b'0' + n % 10) ∷ out))

pub itoa-ne-nil : (n : ℕ) → itoa n ≢ []
unfolding itoa digits
itoa-ne-nil n = ground (arith, digits-ne-nil n (n / 10) ((b'0' + n % 10) ∷ []))

read_number_lem : (s : Text) → s ≢ [] → read_number s ≡ read_digits s 0
unfolding read_number
read_number_lem [] h = absurd (h refl)
read_number_lem (c ∷ s) h = refl

atoi_of_digits :
    (s : Text) (n : ℕ)
    → All IsDigit s
    → s ≢ []
    → read_digits s 0 ≡ some n
    → n < 2 ^ 63
    → atoi s ≡ some (pos n)
unfolding atoi
atoi_of_digits [] n d h e lt = absurd (h refl)
atoi_of_digits (c ∷ s) n d h e lt = ground (arith, read_number_lem (c ∷ s))

pub atoi-itoa : (n : ℕ) → n < 2 ^ 63 → atoi (itoa n) ≡ some (pos n)
unfolding itoa
atoi-itoa n h =
    atoi_of_digits (itoa n) n (itoa-IsDigit n) (itoa-ne-nil n)
      (unfold read_digits in read-digits (suc n) n [] (omega arith)) h
