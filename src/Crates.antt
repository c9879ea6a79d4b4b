-- ===== src/Crates.antt =====
-- What the code calls in third-party crates, whose sources are not in the repository: every function
-- is a parameter, and `IsDocumented` names the documented behaviour that the proofs rely on. `U256`
-- arithmetic panics on overflow, and `to_*_endian` writes 32 bytes.
use durian.Base.{
  ℕ, ◌+◌, ◌*◌, ◌/◌, ◌%◌, ◌^◌, ◌<◌, ◌≤◌, ◌≡◌, ◌≢◌, ◌⊎◌, inr, Bool, Option, Bytes, length, List, [],
  ◌∷◌,
}
use durian.Error.{TrapKind, WasmiError}
use durian.Exec.{Outcome, ok, panicked}
use durian.Types.{Address, H256}

-- Pure functions of primitive-types, keccak-hash, log and byteorder (`le_u32` reads four bytes), and
-- wasmi's printing.
pub record Crates : Type 0 where
  pub u256_mul : ℕ → ℕ → Outcome ℕ
  pub u256_div : ℕ → ℕ → Outcome ℕ
  pub low_u64 : ℕ → ℕ
  pub from_big_endian : Bytes → ℕ
  pub to_big_endian : ℕ → Bytes
  pub address_from_hash : H256 → Address
  pub le_u32 : Bytes → ℕ
  pub write_keccak : Bytes → H256
  pub trace_enabled : Bool
  pub show_trap : TrapKind → Bytes

-- The documented behaviour.
pub record IsDocumented (c : Crates) : Type 0 where
  pub mul_exact : (a b : ℕ) → a * b < 2 ^ 256 → c.u256_mul a b ≡ ok (a * b)
  pub mul_overflow : (a b : ℕ) → 2 ^ 256 ≤ a * b → c.u256_mul a b ≡ panicked
  pub div_exact : (a b : ℕ) → b ≢ 0 → c.u256_div a b ≡ ok (a / b)
  pub low_u64_exact : (a : ℕ) → c.low_u64 a ≡ a % 2 ^ 64
  pub big_endian_inverse : (a : ℕ) → a < 2 ^ 256 → c.from_big_endian (c.to_big_endian a) ≡ a
  pub le_u32_exact :
      (a b c' d : ℕ) → c.le_u32 (a ∷ b ∷ c' ∷ d ∷ []) ≡ a + 256 * b + 65536 * c' + 16777216 * d
  pub big_endian_length : (a : ℕ) → length (c.to_big_endian a) ≡ 32
  pub address_length : (b : Bytes) → length (c.address_from_hash (c.write_keccak b)) ≡ 20

-- A value of the interpreter, with the bits of a float as a number.
pub data RuntimeValue : Type 0 where
  i32 i64 f32 f64 : ℕ → RuntimeValue

abbrev pub RuntimeArgs : Type 0
RuntimeArgs = List RuntimeValue

-- wasmi's linear memory and the host side of its calls. `M` is the state of a memory instance;
-- `get_into` (which
-- fills a buffer) and `get` are asked for an offset and a length, `set` for an offset and the bytes.
pub record Wasmi (M : Type 0) : Type 0 where
  pub nth_u32 : RuntimeArgs → ℕ → TrapKind ⊎ ℕ
  pub nth_u64 : RuntimeArgs → ℕ → TrapKind ⊎ ℕ
  pub value_from_u64 : ℕ → RuntimeValue
  pub get_into : M → ℕ → ℕ → WasmiError ⊎ Bytes
  pub get : M → ℕ → ℕ → WasmiError ⊎ Bytes
  pub set : M → ℕ → Bytes → WasmiError ⊎ M
  pub current_size : M → ℕ
  pub alloc : ℕ → Option ℕ → WasmiError ⊎ M

-- `get_into` takes a buffer of the length asked for and fills it.
pub record FillsBuffers {M : Type 0} (w : Wasmi M) : Type 0 where
  pub get_into_length :
      (m : M) (ptr len : ℕ) (bytes : Bytes) → w.get_into m ptr len ≡ inr bytes → length bytes ≡ len
