-- ===== src/Runtime/Queries.antt =====
-- The functions of durian/src/runtime.rs by which a contract asks about its call and its block.
use durian.Base.{ℕ, ◌*◌, ◌%◌, ◌^◌, length}
use durian.Exec.{Outcome, ok, and_then, Exec, pure, query, gets, ◌>>=◌, ◌>>◌}
use durian.Types.{Address}
use durian.WasmCost.{WasmCosts}
use durian.Schedule.{Schedule, wasm_costs}
use durian.Crates.{Crates, Wasmi, RuntimeArgs, RuntimeValue}
use durian.Provider.{Provider}
use durian.State
use durian.Runtime.{
  Runtime, u64_mod, div_u64, charge, adjusted_charge, gas_left, arg_u32, arg_u64, memory_set,
}

-- `count * s.wasm().field as u64`
abbrev wasm_price : ℕ → (WasmCosts → ℕ) → Schedule → Outcome ℕ
wasm_price count field schedule =
    and_then (wasm_costs schedule) (λ w. ok (count * field w % u64_mod))

module _ {P M : Type 0} ⦃api : Provider P⦄ ⦃crates : Crates⦄ ⦃wasmi : Wasmi M⦄ where
  -- `input_legnth`
  unfoldable pub input_length : Exec (Runtime P M) RuntimeValue
  input_length = gets (λ s. RuntimeValue.i32 (length s.params.args % 2 ^ 32))

  unfoldable pub fetch_input : RuntimeArgs → Exec (Runtime P M) Unit
  fetch_input args = do
    ptr ← arg_u32 args 0
    input ← gets (λ s. s.params.args)
    charge (wasm_price (length input) (λ w. w.memcpy))
    memory_set ptr input

  unfoldable pub return_address_ptr : ℕ → Address → Exec (Runtime P M) Unit
  return_address_ptr ptr val = do charge (wasm_price 1 (λ w. w.static_address)); memory_set ptr val

  unfoldable pub return_u256_ptr : ℕ → ℕ → Exec (Runtime P M) Unit
  return_u256_ptr ptr val = do
    charge (wasm_price 1 (λ w. w.static_u256))
    memory_set ptr (crates.to_big_endian val)

  unfoldable pub value : RuntimeArgs → Exec (Runtime P M) Unit
  value args = do val ← gets (λ s. s.params.value); ptr ← arg_u32 args 0; return_u256_ptr ptr val

  unfoldable pub block_hash : RuntimeArgs → Exec (Runtime P M) Unit
  block_hash args = do
    adjusted_charge (λ schedule. schedule.blockhash_gas)
    number ← arg_u64 args 0
    hash ← query (λ s. State.block_hash number s.state)
    ptr ← arg_u32 args 1
    memory_set ptr hash

  unfoldable pub block_number : Exec (Runtime P M) RuntimeValue
  block_number = gets (λ s. wasmi.value_from_u64 (State.block_number s.state))

  unfoldable pub block_author : RuntimeArgs → Exec (Runtime P M) Unit
  block_author args = do
    author ← query (λ s. State.block_author s.state)
    ptr ← arg_u32 args 0
    return_address_ptr ptr author

  unfoldable pub difficulty : RuntimeArgs → Exec (Runtime P M) Unit
  difficulty args = do
    val ← query (λ s. State.difficulty s.state)
    ptr ← arg_u32 args 0
    return_u256_ptr ptr val

  unfoldable pub gaslimit : RuntimeArgs → Exec (Runtime P M) Unit
  gaslimit args = do
    limit ← query (λ s. State.gas_limit s.state)
    ptr ← arg_u32 args 0
    return_u256_ptr ptr limit

  unfoldable pub timestamp : Exec (Runtime P M) RuntimeValue
  timestamp = gets (λ s. wasmi.value_from_u64 (State.timestamp s.state))

  -- The remaining gas in the schedule's unit; the product wraps.
  unfoldable pub gasleft : Exec (Runtime P M) RuntimeValue
  gasleft = do
    left ← query gas_left
    costs ← query (λ s. wasm_costs s.schedule)
    units ← query (λ _. div_u64 (left * costs.opcodes_mul % u64_mod) costs.opcodes_div)
    pure (wasmi.value_from_u64 units)

  unfoldable pub address : RuntimeArgs → Exec (Runtime P M) Unit
  address args = do
    own ← gets (λ s. s.params.address)
    ptr ← arg_u32 args 0
    return_address_ptr ptr own

  unfoldable pub sender : RuntimeArgs → Exec (Runtime P M) Unit
  sender args = do
    from ← gets (λ s. s.params.sender)
    ptr ← arg_u32 args 0
    return_address_ptr ptr from

  unfoldable pub origin : RuntimeArgs → Exec (Runtime P M) Unit
  origin args = do
    from ← gets (λ s. s.params.origin)
    ptr ← arg_u32 args 0
    return_address_ptr ptr from
