-- ===== src/Runtime/Twins.antt =====
-- durian/src/runtime.rs over two providers that cannot be told apart: the gas meter, the memory and
-- the methods of the cache. The running contract's address has its length, and so does what is read
-- into a buffer.
pub mod Queries
pub mod Handlers
use durian.Base.{ℕ, ◌≡◌, refl, Option, none, some, arith, Bytes, ◌⊎◌, inl, inr, List, length}
use durian.Error.{WasmiError, from_wasmi}
use durian.Exec.{Outcome, ok, Exec, convert, query, gets, modify, on_field, ◌>>=◌}
use durian.Exec.Same.{Same, Same-modify, Same-gets, Same-bind_knowing, same_rules}
use durian.Types.{Address, H256}
use durian.Schedule.{Schedule}
use durian.Crates.{Crates, Wasmi, RuntimeArgs, FillsBuffers}
use durian.State.{State}
use durian.State.Sized.{IsSizedCache}
use durian.Runtime.{
  Runtime, charge_gas, charge, adjusted_charge, charge_amount, overflow_charge,
  adjusted_overflow_charge, on_state, arg_u32, arg_u64, memory_get, write_back, memory_set, h256_at,
  address_at, u256_at,
}
use durian.Runtime.Output.{push_log}

pub record IsSizedRun {P : Type 0} (M Updates : Type 0) (IsValid : P → Type 0) (s : Runtime P M)
    : Type 0 where
  pub state : IsSizedCache Updates IsValid s.state
  pub address : length s.params.address ≡ 20

module _ {P M Updates : Type 0} {IsValid : P → Type 0} where
  pub charge_gas-Same :
      (amount : ℕ) → Same (IsSizedRun M Updates IsValid) (charge_gas amount) (charge_gas amount)
  unfolding charge_gas
  charge_gas-Same amount = record {
    at = λ s h.
        (refl, record { state = ground (arith, h.state); address = ground (arith, h.address) });
  }

  pub charge-Same :
      (f : Schedule → Outcome ℕ) → Same (IsSizedRun M Updates IsValid) (charge f) (charge f)
  unfolding charge
  charge-Same f = search (same_rules, charge_gas-Same)

  pub adjusted_charge-Same :
      (f : Schedule → ℕ)
      → Same (IsSizedRun M Updates IsValid) (adjusted_charge f) (adjusted_charge f)
  unfolding adjusted_charge
  adjusted_charge-Same f = charge-Same _

  charge_amount-Same :
      (a : Option ℕ) → Same (IsSizedRun M Updates IsValid) (charge_amount a) (charge_amount a)
  unfolding charge_amount
  charge_amount-Same none = search same_rules
  charge_amount-Same (some a) = search (same_rules, charge_gas-Same)

  pub adjusted_overflow_charge-Same :
      (f : Schedule → Option ℕ)
      → Same
          (IsSizedRun M Updates IsValid)
          (adjusted_overflow_charge f)
          (adjusted_overflow_charge f)
  unfolding adjusted_overflow_charge overflow_charge
  adjusted_overflow_charge-Same f = search (same_rules, charge_amount-Same)

  pub on_state-Same :
      {A : Type 0} (m n : Exec (State P) A)
      → Same (IsSizedCache Updates IsValid) m n
      → Same (IsSizedRun M Updates IsValid) (on_state m) (on_state n)
  unfolding on_state on_field
  on_state-Same m n k = record {
    at = λ s h. (
      rw (k.at s.state h.state).0 refl,
      record { state = (k.at s.state h.state).1; address = h.address },
    );
  }

  memory-Same :
      (f : Runtime P M → M)
      → Same
          (IsSizedRun M Updates IsValid)
          (modify (λ s. record s { memory = f s }))
          (modify (λ s. record s { memory = f s }))
  memory-Same f = Same-modify _ λ s h. record { state = h.state; address = h.address }

  pub result-Same :
      (bytes : Bytes)
      → Same
          (IsSizedRun M Updates IsValid)
          (modify (λ s. record s { result = bytes }))
          (modify (λ s. record s { result = bytes }))
  result-Same bytes = Same-modify _ λ s h. record { state = h.state; address = h.address }

  pub push_log-Same :
      (topics : List H256) (bytes : Bytes)
      → Same
          (IsSizedRun M Updates IsValid)
          (modify (push_log topics bytes))
          (modify (push_log topics bytes))
  push_log-Same topics bytes = Same-modify _ λ s h. record { state = h.state; address = h.address }

  address_known :
      (s : Runtime P M) (a : Address)
      → IsSizedRun M Updates IsValid s
      → (gets (λ (t : Runtime P M). t.params.address) s).0 ≡ ok a
      → length a ≡ 20
  unfolding gets
  address_known s a h e = ground (arith, h.address)

  -- What follows the address of the running contract may rely on its length.
  pub own_address-Same :
      {A : Type 0} (f g : Address → Exec (Runtime P M) A)
      → ((a : Address) → length a ≡ 20 → Same (IsSizedRun M Updates IsValid) (f a) (g a))
      → Same
          (IsSizedRun M Updates IsValid)
          (gets (λ s. s.params.address) >>= f)
          (gets (λ s. s.params.address) >>= g)
  own_address-Same f g k =
      Same-bind_knowing (λ a. length a ≡ 20) _ _ f g (Same-gets _)
        (λ s a h e. address_known s a h e) k

module _ ⦃crates : Crates⦄ where
  length-converted :
      (r : WasmiError ⊎ Bytes) (len : ℕ) (bytes : Bytes)
      → ((b : Bytes) → r ≡ inr b → length b ≡ len)
      → convert (from_wasmi crates.show_trap) r ≡ ok bytes
      → length bytes ≡ len
  length-converted (inl e) len bytes k e' = cc
  length-converted (inr b) len bytes k e' = ground (arith, k b refl)

module _ {P M Updates : Type 0} {IsValid : P → Type 0} ⦃crates : Crates⦄ ⦃wasmi : Wasmi M⦄ where
  pub arg_u32-Same :
      (args : RuntimeArgs) (i : ℕ)
      → Same (IsSizedRun {P = P} M Updates IsValid) (arg_u32 args i) (arg_u32 args i)
  unfolding arg_u32
  arg_u32-Same args i = search same_rules

  pub arg_u64-Same :
      (args : RuntimeArgs) (i : ℕ)
      → Same (IsSizedRun {P = P} M Updates IsValid) (arg_u64 args i) (arg_u64 args i)
  unfolding arg_u64
  arg_u64-Same args i = search same_rules

  pub memory_get-Same :
      (ptr len : ℕ)
      → Same (IsSizedRun {P = P} M Updates IsValid) (memory_get ptr len) (memory_get ptr len)
  unfolding memory_get
  memory_get-Same ptr len = search same_rules

  pub h256_at-Same :
      (ptr : ℕ) → Same (IsSizedRun {P = P} M Updates IsValid) (h256_at ptr) (h256_at ptr)
  unfolding h256_at
  h256_at-Same ptr = search same_rules

  pub address_at-Same :
      (ptr : ℕ) → Same (IsSizedRun {P = P} M Updates IsValid) (address_at ptr) (address_at ptr)
  unfolding address_at
  address_at-Same ptr = search same_rules

  pub u256_at-Same :
      (ptr : ℕ) → Same (IsSizedRun {P = P} M Updates IsValid) (u256_at ptr) (u256_at ptr)
  unfolding u256_at
  u256_at-Same ptr = search same_rules

  write_back-Same :
      (r : WasmiError ⊎ M)
      → Same (IsSizedRun {P = P} M Updates IsValid) (write_back r) (write_back r)
  write_back-Same (inl e) = search same_rules
  write_back-Same (inr m) = memory-Same (λ _. m)

  pub memory_set-Same :
      (ptr : ℕ) (bytes : Bytes)
      → Same (IsSizedRun {P = P} M Updates IsValid) (memory_set ptr bytes) (memory_set ptr bytes)
  unfolding memory_set
  memory_set-Same ptr bytes = search (same_rules, write_back-Same)

  -- What follows a key or a value may rely on its length.
  pub key-Same :
      {A : Type 0} (fills : FillsBuffers wasmi) (ptr : ℕ) (f g : H256 → Exec (Runtime P M) A)
      → ((k : H256) → length k ≡ 32 → Same (IsSizedRun M Updates IsValid) (f k) (g k))
      → Same (IsSizedRun M Updates IsValid) (h256_at ptr >>= f) (h256_at ptr >>= g)
  unfolding h256_at query
  key-Same fills ptr f g k =
      Same-bind_knowing (λ b. length b ≡ 32) _ _ f g (h256_at-Same ptr)
        (λ s b h e.
          length-converted (wasmi.get_into s.memory ptr 32) 32 b
            (λ c. fills.get_into_length s.memory ptr 32 c) e)
        k

pub ruleset sized_rules = (
  same_rules, charge_gas-Same, charge-Same, adjusted_charge-Same, adjusted_overflow_charge-Same,
  on_state-Same, result-Same, push_log-Same, arg_u32-Same, arg_u64-Same, memory_get-Same,
  h256_at-Same, address_at-Same, u256_at-Same, memory_set-Same,
)
