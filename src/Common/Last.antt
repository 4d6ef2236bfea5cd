-- ===== src/Common/Last.antt =====
-- The end of a list, and how `set` acts on its two halves.
use tsdproxy.Common.{
  ℕ, zero, suc, ◌-◌, ◌≤◌, ◌<◌, ◌≡◌, refl, ap, List, [], ◌∷◌, ◌++◌, arith, length, length-append,
  length-drop, map, length-map, set, take, drop, dec_lt,
}

module _ {ℓ} {A : Type ℓ} where
  -- The last `n` entries of a list.
  unfoldable pub last : ℕ → List A → List A
  last n xs = drop (length xs - n) xs

  pub set-split :
      (xs : List A) (i : ℕ) (v : A) → i < length xs → set xs i v ≡ take i xs ++ v ∷ drop (suc i) xs
  set-split [] i v h = elim h [ ]
  set-split (x ∷ xs) zero v h = refl
  set-split (x ∷ xs) (suc i) v h = ap (◌∷◌ x) (set-split xs i v (omega arith))

  pub drop-append_le :
      (n : ℕ) (xs ys : List A) → n ≤ length xs → drop n (xs ++ ys) ≡ drop n xs ++ ys
  drop-append_le zero xs ys h = refl
  drop-append_le (suc n) [] ys h = elim h [ ]
  drop-append_le (suc n) (x ∷ xs) ys h = drop-append_le n xs ys (omega arith)

  pub drop-suc : (n : ℕ) (xs : List A) → drop (suc n) xs ≡ drop 1 (drop n xs)
  drop-suc zero xs = refl
  drop-suc (suc n) [] = refl
  drop-suc (suc n) (x ∷ xs) = drop-suc n xs

  pub drop-length : (xs : List A) → drop (length xs) xs ≡ []
  drop-length [] = refl
  drop-length (x ∷ xs) = drop-length xs

  pub take-suc-set :
      (xs : List A) (i : ℕ) (v : A)
      → i < length xs
      → take (suc i) (set xs i v) ≡ take i xs ++ v ∷ []
  take-suc-set [] i v h = elim h [ ]
  take-suc-set (x ∷ xs) zero v h = refl
  take-suc-set (x ∷ xs) (suc i) v h = ap (◌∷◌ x) (take-suc-set xs i v (omega arith))

  pub drop-suc-set : (xs : List A) (i : ℕ) (v : A) → drop (suc i) (set xs i v) ≡ drop (suc i) xs
  drop-suc-set [] i v = refl
  drop-suc-set (x ∷ xs) zero v = refl
  drop-suc-set (x ∷ xs) (suc i) v = drop-suc-set xs i v

  -- What a further entry does to the last `n`.
  pub last-append_few :
      (n : ℕ) (h : List A) (x : A) → length h < n → last n (h ++ x ∷ []) ≡ last n h ++ x ∷ []
  unfolding last
  last-append_few n h x lt =
      let zero_left : length (h ++ x ∷ []) - n ≡ 0 = omega (arith, length-append h (x ∷ [])) in
      let zero_before : length h - n ≡ 0 = omega arith in rw (zero_left, zero_before)

  pub last-append_many :
      (n : ℕ) (h : List A) (x : A)
      → 1 ≤ n
      → n ≤ length h
      → last n (h ++ x ∷ []) ≡ drop 1 (last n h) ++ x ∷ []
  unfolding last
  last-append_many n h x pos le =
      let step : length (h ++ x ∷ []) - n ≡ suc (length h - n) =
        omega (arith, length-append h (x ∷ [])) in
      rw (
        step,
        drop-append_le (suc (length h - n)) h (x ∷ []) (omega arith),
        drop-suc (length h - n) h,
      )

module _ {ℓ} {A : Type ℓ} where
  pub length-last : (n : ℕ) (xs : List A) → length (last n xs) ≤ n
  unfolding last
  length-last n xs = omega (arith, length-drop (length xs - n) xs)

  length-last_eq : (n : ℕ) (xs : List A) → n ≤ length xs → length (last n xs) ≡ n
  unfolding last
  length-last_eq n xs h = omega (arith, length-drop (length xs - n) xs)

  pub last-of_few : (n : ℕ) (xs : List A) → length xs ≤ n → last n xs ≡ xs
  unfolding last
  last-of_few n xs h = let e : length xs - n ≡ 0 = omega arith in rw e

  -- What was cut off before matters no more.
  pub last-last_append :
      (n : ℕ) (xs : List A) (x : A) → 1 ≤ n → last n (last n xs ++ x ∷ []) ≡ last n (xs ++ x ∷ [])
  last-last_append n xs x h = elim (dec_lt (length xs) n) [
    | yes few ↦ rw (last-of_few n xs (omega arith))
    | no many ↦
        let full : length (last n xs) ≡ n = length-last_eq n xs (omega arith) in
        rw (
          last-append_many n (last n xs) x h (omega arith),
          last-append_many n xs x h (omega arith),
          last-of_few n (last n xs) (length-last n xs),
        )
  ]

map-drop {ℓ κ} :
    {A : Type ℓ} {B : Type κ} (f : A → B) (n : ℕ) (xs : List A)
    → map f (drop n xs) ≡ drop n (map f xs)
map-drop f zero xs = refl
map-drop f (suc n) [] = refl
map-drop f (suc n) (x ∷ xs) = map-drop f n xs

pub map-last {ℓ κ} :
    {A : Type ℓ} {B : Type κ} (f : A → B) (n : ℕ) (xs : List A)
    → map f (last n xs) ≡ last n (map f xs)
unfolding last
map-last f n xs = rw (length-map xs f, map-drop f (length xs - n) xs)
