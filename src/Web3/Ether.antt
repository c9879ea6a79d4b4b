-- ===== src/Web3/Ether.antt =====
-- `format_ether` of examples/web3/src/types/transaction_request.rs: a number of wei as text in ether.
-- `{}` of a `U256` is a parameter.
pub mod Trim
pub mod Digits
pub mod Pointed
pub mod Amount
use durian.Base.{
  ℕ, ◌+◌, ◌-◌, ◌≤◌, ◌≡◌, ◌≢◌, [], ◌∷◌, ◌++◌, if◌then◌else◌, leb, ◌==◌, length, take, drop,
  replicate, Bytes, codes,
}
use durian.Decimal.{value_from}

-- The bytes of '0' .. '9'.
abbrev pub AreDigits : Bytes → Type 0
AreDigits [] = Unit
AreDigits (b ∷ r) = (48 ≤ b) × (b ≤ 57) × AreDigits r

-- `{}` of a number: its decimal digits.
pub record IsDecimal (show : ℕ → Bytes) (i : ℕ) : Type 0 where
  pub digits : AreDigits (show i)
  pub nonempty : show i ≢ []
  pub value : value_from 0 (show i) ≡ i

-- `trim_end_matches` with a character.
abbrev pub unless_all : ℕ → ℕ → Bytes → Bytes
unless_all c b (x ∷ r) = b ∷ x ∷ r
unless_all c b [] = if b == c then [] else b ∷ []

unfoldable pub trim_end : ℕ → Bytes → Bytes
trim_end c [] = []
trim_end c (b ∷ r) = unless_all c b (trim_end c r)

-- The text with its point, before trailing zeros are cut.
unfoldable pub pointed : Bytes → Bytes
pointed string =
    if leb (length string) 18
    then codes "0." ++ (replicate (18 - length string) 48 ++ string)
    else take (length string - 18) string ++ 46 ∷ drop (length string - 18) string

unfoldable pub format_ether : (ℕ → Bytes) → ℕ → Bytes
unfolding trim_end pointed
format_ether show i = trim_end 46 (trim_end 48 (pointed (show i)))
