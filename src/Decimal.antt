-- ===== src/Decimal.antt =====
-- `{}` of an unsigned number in `format!`, for numbers of at most 32 bits.
use durian.Base.{
  ℕ, zero, suc, ◌+◌, ◌*◌, ◌/◌, ◌%◌, ◌^◌, ◌<◌, ◌-◌, ◌≡◌, refl, [], ◌∷◌, ◌++◌, ltb, if◌then◌else◌,
  Bytes, arith,
}

-- A number in decimal; ten digits are enough for 32 bits.
decimal_from : ℕ → ℕ → Bytes
decimal_from zero n = []
decimal_from (suc fuel) n =
    let rest = decimal_from fuel (n / 10) in
    if ltb n 10 then (48 + n) ∷ [] else rest ++ (48 + n % 10) ∷ []

unfoldable pub decimal : ℕ → Bytes
unfolding decimal_from
decimal n = decimal_from 10 n

-- The number that decimal digits stand for.
abbrev pub value_from : ℕ → Bytes → ℕ
value_from acc [] = acc
value_from acc (b ∷ r) = value_from (acc * 10 + (b - 48)) r

value_from-append :
    (acc : ℕ) (xs : Bytes) (b : ℕ)
    → value_from acc (xs ++ b ∷ []) ≡ value_from acc xs * 10 + (b - 48)
value_from-append acc [] b = refl
value_from-append acc (x ∷ xs) b = value_from-append (acc * 10 + (x - 48)) xs b

decimal_from-value : (fuel n : ℕ) → n < 10 ^ fuel → value_from 0 (decimal_from fuel n) ≡ n
unfolding decimal_from
decimal_from-value zero n h = omega arith
decimal_from-value (suc fuel) n h = ground (
  arith,
  decimal_from-value fuel (n / 10),
  value_from-append 0 (decimal_from fuel (n / 10)) (48 + n % 10),
)

-- The digits of a 32-bit number stand for it: ten are enough.
pub decimal-value : (n : ℕ) → n < 2 ^ 32 → value_from 0 (decimal n) ≡ n
unfolding decimal
decimal-value n h = decimal_from-value 10 n (omega arith)
