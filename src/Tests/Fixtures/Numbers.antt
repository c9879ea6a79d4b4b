-- ===== src/Tests/Fixtures/Numbers.antt =====
-- The arithmetic of the crates on plain numbers, and hashes that are cut or filled up with zeros.
use durian.Base.{
  ℕ, ◌+◌, ◌*◌, ◌/◌, ◌%◌, ◌^◌, ◌<◌, ◌≤◌, ◌≡◌, ◌≢◌, refl, false, [], ◌∷◌, ◌++◌, arith, ltb, ◌==◌,
  if◌then◌else◌, Bytes, codes, length, take, drop, replicate, zero, suc, length-append, length-take,
  length-drop, length-replicate, lt→ltb,
}
use durian.Exec.{Outcome, ok, panicked}
use durian.Crates.{Crates, IsDocumented}

-- The big-endian bytes of a number, `n` of them.
unfoldable pub big_endian : ℕ → ℕ → Bytes
big_endian zero x = []
big_endian (suc n) x = let rest = big_endian n (x / 256) in rest ++ (x % 256) ∷ []

unfoldable pub number_from : ℕ → Bytes → ℕ
number_from acc [] = acc
number_from acc (b ∷ r) = number_from (acc * 256 + b) r

unfoldable pub u32_from : Bytes → ℕ
u32_from (a ∷ b ∷ c ∷ d ∷ []) = a + 256 * b + 65536 * c + 16777216 * d
u32_from _ = 0

unfoldable pub crates_mul : ℕ → ℕ → Outcome ℕ
crates_mul a b = if ltb (a * b) (2 ^ 256) then ok (a * b) else panicked

unfoldable pub crates_div : ℕ → ℕ → Outcome ℕ
crates_div a b = if b == 0 then panicked else ok (a / b)

instance abbrev pub plain_crates : Crates
plain_crates = record {
  u256_mul = crates_mul;
  u256_div = crates_div;
  low_u64 = λ a. a % 2 ^ 64;
  from_big_endian = number_from 0;
  to_big_endian = big_endian 32;
  address_from_hash = drop 12;
  le_u32 = u32_from;
  write_keccak = λ b. take 32 (b ++ replicate 32 0);
  trace_enabled = false;
  show_trap = λ k. codes "trap";
}

number_from-append :
    (acc : ℕ) (xs : Bytes) (b : ℕ) → number_from acc (xs ++ b ∷ []) ≡ number_from acc xs * 256 + b
unfolding number_from
number_from-append acc [] b = refl
number_from-append acc (x ∷ xs) b = number_from-append (acc * 256 + x) xs b

number_from-big_endian : (n x : ℕ) → x < 256 ^ n → number_from 0 (big_endian n x) ≡ x
unfolding big_endian number_from
number_from-big_endian zero x h = omega arith
number_from-big_endian (suc n) x h = ground (
  arith,
  number_from-append 0 (big_endian n (x / 256)) (x % 256),
  number_from-big_endian n (x / 256),
)

length-big_endian : (n x : ℕ) → length (big_endian n x) ≡ n
unfolding big_endian
length-big_endian zero x = refl
length-big_endian (suc n) x =
    omega (
      arith,
      length-append (big_endian n (x / 256)) ((x % 256) ∷ []),
      length-big_endian n (x / 256),
    )

mul_exact : (a b : ℕ) → a * b < 2 ^ 256 → crates_mul a b ≡ ok (a * b)
unfolding crates_mul
mul_exact a b h = rw (lt→ltb (a * b) (2 ^ 256) h)

mul_overflow : (a b : ℕ) → 2 ^ 256 ≤ a * b → crates_mul a b ≡ panicked
unfolding crates_mul
mul_overflow a b h = ground arith

div_exact : (a b : ℕ) → b ≢ 0 → crates_div a b ≡ ok (a / b)
unfolding crates_div
div_exact a b h = ground arith

le_u32_exact :
    (a b c d : ℕ) → u32_from (a ∷ b ∷ c ∷ d ∷ []) ≡ a + 256 * b + 65536 * c + 16777216 * d
unfolding u32_from
le_u32_exact a b c d = refl

hash_address_length : (b : Bytes) → length (drop 12 (take 32 (b ++ replicate 32 0))) ≡ 20
hash_address_length b = omega (
  arith,
  length-drop 12 (take 32 (b ++ replicate 32 0)),
  length-take 32 (b ++ replicate 32 0),
  length-append b (replicate 32 0),
  length-replicate {A = ℕ} 32 0,
)

pub plain_crates-IsDocumented : IsDocumented plain_crates
plain_crates-IsDocumented = record {
  mul_exact = mul_exact;
  mul_overflow = mul_overflow;
  div_exact = div_exact;
  low_u64_exact = λ a. refl;
  big_endian_inverse = λ a h. number_from-big_endian 32 a h;
  le_u32_exact = le_u32_exact;
  big_endian_length = length-big_endian 32;
  address_length = hash_address_length;
}
