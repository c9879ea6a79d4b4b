-- ===== src/Runtime.antt =====
-- durian/src/runtime.rs: the host side of a running contract. This file has the state, the gas
-- meter and the access to the contract's memory and arguments; the modules below have the host
-- functions. Gas is a `u64`; where the source multiplies with `*` the product wraps, as in a
-- release build, and where it uses `checked_*` the overflow is a branch.
pub mod Gas
pub mod Storage
pub mod Output
pub mod Calls
pub mod Queries
pub mod Dispatch
pub mod Guard
pub mod Handled
pub mod Slots
pub mod Logs
pub mod Twins
pub mod View
use durian.Base.{
  ℕ, ◌+◌, ◌-◌, ◌*◌, ◌/◌, ◌%◌, ◌^◌, ◌⊎◌, inl, inr, Bool, true, false, Option, none, some, List, [],
  ltb, ◌==◌, if◌then◌else◌, Bytes,
}
use durian.Error.{Error, from_trap, from_wasmi, WasmiError}
use durian.Exec.{
  Outcome, ok, err, panicked, Exec, convert, and_then, pure, raise, lift, query, gets, modify,
  on_field, ◌>>=◌,
}
use durian.Types.{Address, H256, ActionParams, LogEntry}
use durian.Schedule.{Schedule, wasm_costs}
use durian.Crates.{Crates, Wasmi, RuntimeArgs}
use durian.State.{State}

pub record Runtime (P M : Type 0) : Type 0 where
  pub schedule : Schedule
  pub gas_counter : ℕ
  pub gas_limit : ℕ
  pub params : ActionParams
  pub memory : M
  pub result : Bytes
  pub state : State P
  pub logs : List LogEntry

abbrev pub u64_mod : ℕ
u64_mod = 2 ^ 64

-- `u64::checked_add` and `u64::checked_mul`
abbrev pub checked_u64 : ℕ → Option ℕ
checked_u64 n = if ltb n u64_mod then some n else none

-- `/` on unsigned integers panics on a zero divisor.
abbrev pub div_u64 : ℕ → ℕ → Outcome ℕ
div_u64 a b = if b == 0 then panicked else ok (a / b)

-- The amount of an adjusted charge: `f(schedule) * opcodes_div / opcodes_mul`.
unfoldable pub adjusted : (Schedule → ℕ) → Schedule → Outcome ℕ
unfolding wasm_costs
adjusted f schedule =
    and_then (wasm_costs schedule) λ w. div_u64 (f schedule * w.opcodes_div % u64_mod) w.opcodes_mul

unfoldable pub adjusted_checked : Option ℕ → Schedule → Outcome (Option ℕ)
unfolding wasm_costs
adjusted_checked none schedule = ok none
adjusted_checked (some x) schedule = and_then (wasm_costs schedule) λ w.
    elim (checked_u64 (x * w.opcodes_div)) [
      | none ↦ ok none
      | some y ↦ and_then (div_u64 y w.opcodes_mul) (λ z. ok (some z))
    ]

module _ {P M : Type 0} where
  -- `Runtime::new`
  unfoldable pub new_runtime : ActionParams → Schedule → State P → M → ℕ → Runtime P M
  new_runtime params schedule state memory gas_limit = record {
    schedule = schedule;
    gas_counter = 0;
    gas_limit = gas_limit;
    params = params;
    memory = memory;
    result = [];
    state = state;
    logs = [];
  }

  unfoldable pub charge_gas : ℕ → Exec (Runtime P M) Bool
  charge_gas amount s = elim (checked_u64 (s.gas_counter + amount)) [
    | none ↦ (ok false, s)
    | some val ↦
        if ltb s.gas_limit val
        then (ok false, s)
        else (ok true, record s { gas_counter = s.gas_counter + amount })
  ]

  unfoldable pub charge : (Schedule → Outcome ℕ) → Exec (Runtime P M) Unit
  charge f = do
    amount ← query (λ s. f s.schedule)
    allowed ← charge_gas amount
    if allowed then pure tt else raise Error.gas_limit

  unfoldable pub adjusted_charge : (Schedule → ℕ) → Exec (Runtime P M) Unit
  unfolding adjusted
  adjusted_charge f = charge (adjusted f)

  charge_amount : Option ℕ → Exec (Runtime P M) Unit
  charge_amount none = raise Error.gas_limit
  charge_amount (some amount) = do
    allowed ← charge_gas amount
    if allowed then pure tt else raise Error.gas_limit

  unfoldable pub overflow_charge : (Schedule → Outcome (Option ℕ)) → Exec (Runtime P M) Unit
  unfolding charge_amount
  overflow_charge f = do amount ← query (λ s. f s.schedule); charge_amount amount

  unfoldable pub adjusted_overflow_charge : (Schedule → Option ℕ) → Exec (Runtime P M) Unit
  unfolding adjusted_checked
  adjusted_overflow_charge f = overflow_charge (λ schedule. adjusted_checked (f schedule) schedule)

  -- `Runtime::gas_left`
  unfoldable pub gas_left : Runtime P M → Outcome ℕ
  gas_left s =
      if ltb s.gas_limit s.gas_counter
      then err Error.invalid_gas_state
      else ok (s.gas_limit - s.gas_counter)

  -- `Runtime::into_result`
  unfoldable pub into_result : Runtime P M → Bytes
  into_result s = s.result

  abbrev set_state : State P → Runtime P M → Runtime P M
  set_state t s = record s { state = t }

  -- A method call on `self.state`.
  unfoldable pub on_state : {A : Type 0} → Exec (State P) A → Exec (Runtime P M) A
  on_state m = on_field (λ s. s.state) set_state m

module _ {P M : Type 0} ⦃crates : Crates⦄ ⦃wasmi : Wasmi M⦄ where
  -- `args.nth_checked::<u32>(i)?` and `args.nth_checked::<u64>(i)?`
  unfoldable pub arg_u32 : RuntimeArgs → ℕ → Exec (Runtime P M) ℕ
  arg_u32 args i = lift (convert from_trap (wasmi.nth_u32 args i))

  unfoldable pub arg_u64 : RuntimeArgs → ℕ → Exec (Runtime P M) ℕ
  arg_u64 args i = lift (convert from_trap (wasmi.nth_u64 args i))

  -- `self.memory.get(ptr, len)?`
  unfoldable pub memory_get : ℕ → ℕ → Exec (Runtime P M) Bytes
  memory_get ptr len =
      query (λ s. convert (from_wasmi crates.show_trap) (wasmi.get s.memory ptr len))

  abbrev write_back : WasmiError ⊎ M → Exec (Runtime P M) Unit
  write_back (inl e) = raise (from_wasmi crates.show_trap e)
  write_back (inr m) = modify (λ s. record s { memory = m })

  -- `self.memory.set(ptr, bytes)?`
  unfoldable pub memory_set : ℕ → Bytes → Exec (Runtime P M) Unit
  memory_set ptr bytes = do written ← gets (λ s. wasmi.set s.memory ptr bytes); write_back written

  unfoldable pub h256_at : ℕ → Exec (Runtime P M) H256
  h256_at ptr = query (λ s. convert (from_wasmi crates.show_trap) (wasmi.get_into s.memory ptr 32))

  unfoldable pub address_at : ℕ → Exec (Runtime P M) Address
  address_at ptr =
      query (λ s. convert (from_wasmi crates.show_trap) (wasmi.get_into s.memory ptr 20))

  unfoldable pub u256_at : ℕ → Exec (Runtime P M) ℕ
  u256_at ptr = do
    buf ← query (λ s. convert (from_wasmi crates.show_trap) (wasmi.get_into s.memory ptr 32))
    pure (crates.from_big_endian buf)
