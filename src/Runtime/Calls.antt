-- ===== src/Runtime/Calls.antt =====
-- The functions of durian/src/runtime.rs that call or create contracts. They are unfinished in the
-- source: where the arguments are good and the gas is paid they end with a panic error.
use durian.Base.{
  ℕ, ◌+◌, ◌*◌, ◌-◌, ◌^◌, Bool, true, false, Option, none, some, ltb, if◌then◌else◌, codes,
}
use durian.Error.{Error}
use durian.Exec.{Outcome, ok, and_then, Exec, pure, raise, query, gets, ◌>>=◌, ◌>>◌}
use durian.Types.{ActionType}
use durian.Schedule.{Schedule, wasm_costs}
use durian.Crates.{Crates, Wasmi, RuntimeArgs, RuntimeValue}
use durian.Provider.{Provider}
use durian.State
use durian.Runtime.{
  Runtime, checked_u64, div_u64, charge, adjusted_charge, on_state, arg_u32, arg_u64, memory_get,
  address_at, u256_at,
}

-- `RuntimeValue::I32(-1)`
abbrev pub minus_one : RuntimeValue
minus_one = RuntimeValue.i32 (2 ^ 32 - 1)

-- The gas for a call in the interpreter's unit, or nothing where it overflows.
unfoldable pub call_gas : ℕ → Schedule → Outcome (Option ℕ)
unfolding wasm_costs
call_gas gas schedule = and_then (wasm_costs schedule) λ w.
    elim (checked_u64 (gas * w.opcodes_div)) [
      | none ↦ ok none
      | some x ↦ and_then (div_u64 x w.opcodes_mul) (λ y. ok (some y))
    ]

module _ {P M : Type 0} ⦃api : Provider P⦄ ⦃crates : Crates⦄ ⦃wasmi : Wasmi M⦄ where
  unfoldable pub read_value : Bool → RuntimeArgs → Exec (Runtime P M) (Option ℕ)
  read_value false args = pure none
  read_value true args = do ptr ← arg_u32 args 2; val ← u256_at ptr; pure (some val)

  -- Whether the balance of the running contract covers the value.
  unfoldable pub covered : Option ℕ → Exec (Runtime P M) Bool
  covered none = pure true
  covered (some val) = do
    address ← gets (λ s. s.params.address)
    address_balance ← on_state (State.balance address)
    pure (if ltb address_balance val then false else true)

  unfoldable pub enter : Option ℕ → Exec (Runtime P M) RuntimeValue
  enter none = pure minus_one
  enter (some adjusted_gas) = do
    charge (λ _. ok adjusted_gas)
    raise (Error.panic (codes "not completed"))

  unfoldable pub do_call : Bool → ActionType → RuntimeArgs → Exec (Runtime P M) RuntimeValue
  unfolding read_value covered enter
  do_call use_val call_type args = do
    gas ← arg_u64 args 0
    address_ptr ← arg_u32 args 1
    address ← address_at address_ptr
    let vofs : ℕ = if use_val then 1 else 0
    val ← read_value use_val args
    input_ptr ← arg_u32 args (2 + vofs)
    input_len ← arg_u32 args (3 + vofs)
    result_ptr ← arg_u32 args (4 + vofs)
    result_alloc_len ← arg_u32 args (5 + vofs)
    paid ← covered val
    if paid
        then (do
          adjusted_charge (λ schedule. schedule.call_gas)
          payload ← memory_get input_ptr input_len
          adjusted_gas ← query (λ s. call_gas gas s.schedule)
          enter adjusted_gas)
        else pure minus_one

  unfoldable pub ccall : RuntimeArgs → Exec (Runtime P M) RuntimeValue
  ccall args = do_call true ActionType.call args

  -- Nothing calls it.
  unfoldable pub do_create : ℕ → ℕ → ℕ → ℕ → Exec (Runtime P M) RuntimeValue
  do_create endowment code_ptr code_len result_ptr = raise (Error.panic (codes "Not completed"))

  unfoldable pub create : RuntimeArgs → Exec (Runtime P M) RuntimeValue
  create args = raise (Error.panic (codes "Not completed"))

  unfoldable pub suicide : RuntimeArgs → Exec (Runtime P M) Unit
  suicide args = do
    ptr ← arg_u32 args 0
    refund_address ← address_at ptr
    raise (Error.panic (codes "Not completed"))
