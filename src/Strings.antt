-- ===== src/Strings.antt =====
-- The functions of Go's `strings` and `strconv` that the sources call, over texts as byte lists.
-- `TrimSpace` knows the ASCII spaces only; `Atoi` reads an `int` of 64 bits.
pub mod Splits
pub mod Decimals
use Prim.Native.Char.{code}
use Prim.Native.String.{String}
use mathlib.Core.List.{reverse}
use tsdproxy.Common.{
  ℕ, zero, suc, ◌+◌, ◌-◌, ◌*◌, ◌/◌, ◌%◌, ◌^◌, Bool, true, false, ◌&&◌, ◌||◌, List, [], ◌∷◌, ◌++◌,
  Option, none, some, ltb, leb, ◌==◌, if◌then◌else◌, length, Text,
}
use tsdproxy.Common.Int.{ℤ, pos, negsuc}

-- The bytes of an ASCII literal.
abbrev pub codes : String → Text
codes String.[] = []
codes (String.◌∷◌ c s) = code c ∷ codes s

-- `strings.HasPrefix`, the prefix first.
unfoldable pub has_prefix : Text → Text → Bool
has_prefix [] s = true
has_prefix (p ∷ ps) [] = false
has_prefix (p ∷ ps) (c ∷ s) = p == c && has_prefix ps s

-- `strings.Contains`, the searched text first.
unfoldable pub contains : Text → Text → Bool
unfolding has_prefix
contains sub [] = has_prefix sub []
contains sub (c ∷ s) = has_prefix sub (c ∷ s) || contains sub s

-- `strings.Split` at a separator that is not empty: `skip` bytes of it are still to pass over.
unfoldable pub split_from : Text → ℕ → Text → Text → List Text
unfolding has_prefix
split_from sep skip cur [] = cur ∷ []
split_from sep (suc skip) cur (c ∷ s) = split_from sep skip cur s
split_from sep zero cur (c ∷ s) = elim (has_prefix sep (c ∷ s)) [
  | true ↦ cur ∷ split_from sep (length sep - 1) [] s
  | false ↦ split_from sep zero (cur ++ c ∷ []) s
]

unfoldable pub split : Text → Text → List Text
unfolding split_from
split s sep = split_from sep 0 [] s

-- `strings.SplitN` with the limit 2, at a separator of one byte: the text up to the first separator,
-- and what follows it, if there is one.
unfoldable pub split_n2 : Text → ℕ → Text × Option Text
split_n2 [] sep = ([], none)
split_n2 (c ∷ s) sep =
    let (before, after) = split_n2 s sep in if c == sep then ([], some s) else (c ∷ before, after)

abbrev pub is_space : ℕ → Bool
is_space c = c == 32 || (leb 9 c && leb c 13)

abbrev pub trim_left : Text → Text
trim_left [] = []
trim_left (c ∷ s) = if is_space c then trim_left s else c ∷ s

unfoldable pub trim_space : Text → Text
trim_space s = reverse (trim_left (reverse (trim_left s)))

unfoldable pub read_digits : Text → ℕ → Option ℕ
read_digits [] n = some n
read_digits (c ∷ s) n =
    if ltb c b'0' || ltb b'9' c then none else read_digits s (n * 10 + (c - b'0'))

-- The digits of an integer, at least one.
unfoldable pub read_number : Text → Option ℕ
unfolding read_digits
read_number [] = none
read_number (c ∷ s) = read_digits (c ∷ s) 0

abbrev pub to_int64 : Bool → ℕ → Option ℤ
to_int64 true n = if ltb (2 ^ 63) n then none else some (if n == 0 then pos 0 else negsuc (n - 1))
to_int64 false n = if ltb n (2 ^ 63) then some (pos n) else none

abbrev pub signed : Bool → Option ℕ → Option ℤ
signed minus none = none
signed minus (some n) = to_int64 minus n

-- `strconv.Atoi`
unfoldable pub atoi : Text → Option ℤ
unfolding read_number
atoi [] = none
atoi (c ∷ s) =
    if c == b'-'
    then signed true (read_number s)
    else if c == b'+'
    then signed false (read_number s)
    else signed false (read_number (c ∷ s))

unfoldable pub digits : ℕ → ℕ → Text → Text
digits zero n out = out
digits (suc fuel) n out =
    let d = b'0' + n % 10 in
    let rest = digits fuel (n / 10) (d ∷ out) in if n / 10 == 0 then d ∷ out else rest

-- `strconv.Itoa` of a number that is not negative.
unfoldable pub itoa : ℕ → Text
unfolding digits
itoa n = digits (suc n) n []
