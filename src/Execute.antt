-- ===== src/Execute.antt =====
-- durian/src/execute.rs: a transaction against the blockchain's provider. The run of the contract is
-- a computation on the runtime; the provider is the part of it that outlives the call.
pub mod Writes
pub mod Gas
pub mod Traps
pub mod Committed
pub mod Preserved
pub mod Twins
pub mod View
use durian.Base.{
  ℕ, ◌*◌, ◌-◌, ◌%◌, ◌^◌, Bool, true, false, none, some, List, [], ◌∷◌, ltb, if◌then◌else◌, inl, inr,
  Bytes, codes,
}
use durian.Error.{Error, TrapKind, WasmiError, from_trap, from_wasmi}
use durian.Exec.{
  Outcome, ok, err, panicked, Exec, convert, and_then, unwrap, pure, raise, lift, query, gets,
  ◌>>=◌, ◌>>◌,
}
use durian.Types.{Address, ActionType, ActionParams, LogEntry}
use durian.WasmCost.{WasmCosts, default_costs}
use durian.Schedule.{Schedule, default_schedule, wasm_costs}
use durian.Crates.{Crates, Wasmi}
use durian.Provider.{Provider}
use durian.State.{new_state}
use durian.Env.{ImportResolver, with_limit, memory_ref, memory_size}
use durian.Transaction.{Transaction, Action}
use durian.Utils.{contract_address}
use durian.Parser.{WasmTools, payload}
use durian.Runtime.{Runtime, u64_mod, new_runtime, charge, gas_left, into_result}
use durian.Runtime.Storage.{init_code, update_state}
use durian.Interpreter.{Interpreter, Instance, InvokeResult, run}

pub record ResultData : Type 0 where
  pub gas_left : ℕ
  pub data_bytes : Bytes
  pub contract : Address
  pub logs : List LogEntry

-- The schedule of every run: the default one with the default wasm costs.
unfoldable pub schedule : Schedule
unfolding default_schedule
schedule = record default_schedule { wasm = some default_costs }

abbrev params_of : Transaction → Address → Bytes → ActionType → ActionParams
params_of transaction address code action_type = record {
  code_address = address;
  code_hash = none;
  address = address;
  sender = transaction.sender;
  origin = transaction.sender;
  gas = transaction.gas;
  gas_price = transaction.gas_price;
  value = transaction.value;
  code = code;
  code_version = 0;
  args = transaction.args;
  action_type = action_type;
}

abbrev gas_error : Error
gas_error =
    Error.wasm (codes "Wasm interpreter cannot run contracts with gas (wasm adjusted) >= 2^64")

-- What `execute` makes of the result of the contract's `call`: of a host trap, `Suicide` and
-- `Return` are a normal end and any other error is passed on; all else is ignored.
unfoldable pub check_result : (TrapKind → Bytes) → InvokeResult → Outcome (Unit {0})
check_result show (inl (WasmiError.trap (TrapKind.host Error.suicide))) = ok tt
check_result show (inl (WasmiError.trap (TrapKind.host Error.return))) = ok tt
check_result show (inl (WasmiError.trap (TrapKind.host e))) =
    err (from_wasmi show (WasmiError.trap (TrapKind.host e)))
check_result show r = ok tt

unfoldable pub is_create : Action → Bool
is_create (Action.create code salt) = true
is_create (Action.call address) = false

abbrev pub result_data : ℕ → Bytes → ActionParams → ResultData
result_data left result params = record {
  gas_left = left;
  data_bytes = result;
  contract = params.address;
  logs = [];
}

module _ ⦃crates : Crates⦄ where
  -- Gas in the interpreter's unit, and back.
  unfoldable pub adjusted_gas : WasmCosts → ℕ → Outcome ℕ
  adjusted_gas costs gas =
      and_then (crates.u256_mul gas costs.opcodes_div) λ x. crates.u256_div x costs.opcodes_mul

  unfoldable pub restored_gas : WasmCosts → ℕ → Outcome ℕ
  restored_gas costs gas =
      and_then (crates.u256_mul gas costs.opcodes_mul) λ x. crates.u256_div x costs.opcodes_div

module _ {P : Type 0} ⦃api : Provider P⦄ ⦃crates : Crates⦄ where
  unfoldable pub action_params : Transaction → Action → P → Outcome ActionParams
  action_params transaction (Action.create code salt) p =
      ok (
        params_of transaction (contract_address transaction.sender code salt) code
          ActionType.create)
  action_params transaction (Action.call address) p =
      and_then (api.account address p)
        λ acc. ok (params_of transaction address acc.code ActionType.call)

-- From the code to an instance, with the resolver that holds its memory.
module _ (Code Loaded M : Type 0) ⦃crates : Crates⦄ ⦃tools : WasmTools Code⦄
    ⦃interpreter : Interpreter Code Loaded M⦄ where
  unfoldable pub instantiate : ActionParams → WasmCosts → Outcome (Instance M × ImportResolver M)
  instantiate params costs = and_then (payload params costs) λ code.
      and_then (convert (from_wasmi crates.show_trap) (interpreter.from_parity_wasm_module code))
        λ loaded.
          convert (from_wasmi crates.show_trap)
            (interpreter.new_instance loaded (with_limit 16 costs))

module _ {P M : Type 0} ⦃api : Provider P⦄ ⦃crates : Crates⦄ ⦃wasmi : Wasmi M⦄ where
  -- `run_start(..)?`: a start function ends normally or with a trap.
  unfoldable pub start_result : InvokeResult → Exec (Runtime P M) Unit
  start_result (inl (WasmiError.trap k)) = raise (from_trap k)
  start_result (inl e) = raise (from_wasmi crates.show_trap e)
  start_result (inr v) = pure tt

  -- The initial charge, the start function and the exported function `call`.
  unfoldable pub run_contract : Instance M → ℕ → Exec (Runtime P M) Unit
  run_contract instance_ initial_memory = do
    costs ← query (λ s. wasm_costs s.schedule)
    if ltb costs.initial_mem (2 ^ 16) then pure tt else lift panicked
    charge (λ s. and_then (wasm_costs s) λ w. ok (initial_memory * w.initial_mem % u64_mod))
    started ← run instance_.start
    start_result started
    result ← run instance_.invoke_call
    lift (check_result crates.show_trap result)

  abbrev install : Action → ActionParams → Bytes → Exec (Runtime P M) Unit
  install action params result =
      if is_create action then init_code params.address result else pure tt

  -- The two branches on `result.is_empty()`: an empty result writes nothing back.
  unfoldable pub commit : Action → ActionParams → ℕ → Bytes → Exec (Runtime P M) ResultData
  commit action params left [] = pure (result_data left [] params)
  commit action params left (b ∷ r) = do
    install action params (b ∷ r)
    update_state
    pure (result_data left (b ∷ r) params)

  -- After the run.
  unfoldable pub settle : Action → ActionParams → Exec (Runtime P M) ResultData
  settle action params = do
    left ← query (λ s. unwrap (gas_left s))
    result ← gets into_result
    left_adj ← query (λ s. and_then (wasm_costs s.schedule) λ w. restored_gas w left)
    commit action params left_adj result

  unfoldable pub run_and_settle :
      Action → ActionParams → ℕ → Instance M → Exec (Runtime P M) ResultData
  run_and_settle action params initial_memory instance_ = do
    run_contract instance_ initial_memory
    settle action params

  -- A computation on a new runtime, of which the provider is kept.
  unfoldable pub in_runtime : {A : Type 0} → ActionParams → M → ℕ → Exec (Runtime P M) A → Exec P A
  in_runtime params memory gas_limit m p =
      let (r, s) = m (new_runtime params schedule (new_state p) memory gas_limit) in
      (r, s.state.provider)

  unfoldable pub run_with :
      Action → ActionParams → ℕ → Instance M × ImportResolver M → Exec P ResultData
  run_with action params gas (instance_, resolver) = do
    if ltb (u64_mod - 1) gas then raise gas_error else do
      sized ← lift (memory_size resolver)
      memory ← lift (memory_ref sized.1)
      in_runtime params memory.0 (crates.low_u64 gas)
          (run_and_settle action params sized.0 instance_)

module _ (Code Loaded M : Type 0) {P : Type 0} ⦃api : Provider P⦄ ⦃crates : Crates⦄
    ⦃wasmi : Wasmi M⦄ ⦃tools : WasmTools Code⦄ ⦃interpreter : Interpreter Code Loaded M⦄ where
  -- From the parameters of the action on.
  unfoldable pub run_code : Action → ActionParams → Exec P ResultData
  run_code action params = do
    costs ← lift (wasm_costs schedule)
    loaded ← lift (instantiate Code Loaded M params costs)
    gas ← lift (adjusted_gas costs params.gas)
    run_with action params gas loaded

  unfoldable pub execute : Transaction → Exec P ResultData
  execute transaction = do
    params ← query (action_params transaction transaction.action)
    run_code transaction.action params
