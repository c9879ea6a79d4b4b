-- ===== src/Web3/Ether/Digits.antt =====
-- Decimal digits: where they stand and the number that they stand for.
use durian.Base.{
  ℕ, zero, suc, ◌+◌, ◌-◌, ◌*◌, ◌^◌, ◌≡◌, refl, ap, ◌∙◌, [], ◌∷◌, ◌++◌, length, take, drop,
  replicate, arith, Bytes,
}
use native.Mathlib.Nat.{pow-suc}
use durian.Decimal.{value_from}
use durian.Web3.Ether.{AreDigits}

pub AreDigits-append : (xs ys : Bytes) → AreDigits xs → AreDigits ys → AreDigits (xs ++ ys)
AreDigits-append [] ys hx hy = hy
AreDigits-append (x ∷ xs) ys (lo, hi, hx) hy = (lo, hi, AreDigits-append xs ys hx hy)

pub AreDigits-front : (xs ys : Bytes) → AreDigits (xs ++ ys) → AreDigits xs
AreDigits-front [] ys h = tt
AreDigits-front (x ∷ xs) ys (lo, hi, h) = (lo, hi, AreDigits-front xs ys h)

pub AreDigits-take : (n : ℕ) (xs : Bytes) → AreDigits xs → AreDigits (take n xs)
AreDigits-take zero xs h = tt
AreDigits-take (suc n) [] h = tt
AreDigits-take (suc n) (x ∷ xs) (lo, hi, h) = (lo, hi, AreDigits-take n xs h)

pub AreDigits-drop : (n : ℕ) (xs : Bytes) → AreDigits xs → AreDigits (drop n xs)
AreDigits-drop zero xs h = h
AreDigits-drop (suc n) [] h = tt
AreDigits-drop (suc n) (x ∷ xs) (lo, hi, h) = AreDigits-drop n xs h

pub AreDigits-zeros : (n : ℕ) → AreDigits (replicate n 48)
AreDigits-zeros zero = tt
AreDigits-zeros (suc n) = (omega arith, omega arith, AreDigits-zeros n)

pub value_from-append :
    (acc : ℕ) (xs ys : Bytes) → value_from acc (xs ++ ys) ≡ value_from (value_from acc xs) ys
value_from-append acc [] ys = refl
value_from-append acc (x ∷ xs) ys = value_from-append (acc * 10 + (x - 48)) xs ys

pub value_from-zeros : (acc k : ℕ) → value_from acc (replicate k 48) ≡ acc * 10 ^ k
value_from-zeros acc zero = omega arith
value_from-zeros acc (suc k) =
    rw (pow-suc 10 k) (omega (arith, value_from-zeros (acc * 10 + (48 - 48)) k))

value_from-shift :
    (acc : ℕ) (xs : Bytes) → value_from acc xs ≡ acc * 10 ^ length xs + value_from 0 xs
value_from-shift acc [] = omega arith
value_from-shift acc (x ∷ xs) = rw (pow-suc 10 (length xs)) (
    omega
      (arith, value_from-shift (acc * 10 + (x - 48)) xs, value_from-shift (0 * 10 + (x - 48)) xs))

take-drop : (n : ℕ) (xs : Bytes) → take n xs ++ drop n xs ≡ xs
take-drop zero xs = refl
take-drop (suc n) [] = refl
take-drop (suc n) (x ∷ xs) = ap (λ (l : Bytes). x ∷ l) (take-drop n xs)

pub behind_zeros : (k : ℕ) (s : Bytes) → value_from 0 (replicate k 48 ++ s) ≡ value_from 0 s
behind_zeros k s =
    let none_yet : value_from 0 (replicate k 48) ≡ 0 = omega (arith, value_from-zeros 0 k) in
    value_from-append 0 (replicate k 48) s ∙ ap (λ a. value_from a s) none_yet

pub value_from-take :
    (n : ℕ) (s : Bytes)
    → value_from 0 (take n s) * 10 ^ length (drop n s) + value_from 0 (drop n s) ≡ value_from 0 s
value_from-take n s = omega (
  arith,
  ap (value_from 0) (take-drop n s),
  value_from-append 0 (take n s) (drop n s),
  value_from-shift (value_from 0 (take n s)) (drop n s),
)
