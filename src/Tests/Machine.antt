-- ===== src/Tests/Machine.antt =====
-- The virtual machine as a whole, on a chain with one contract.
use durian.Base.{
  replicate, bytes_eq_iff, bytes_has_eq, ◌≤◌, ◌-◌, List, ◌≡◌, ◌≢◌, ◌∷◌, [], refl, arith, Bytes,
  codes, inr, none,
}
use durian.Error.{Error, from_wasmi, from_trap}
use durian.Exec
use durian.Exec.{Outcome, ok, err, ◌>>=◌, on_field, unwrapped}
use durian.HashMap.{get, insert, contains_key}
use durian.Types.{Address, LogEntry}
use durian.Transaction.{Action}
use durian.Schedule.{default_schedule, wasm_costs}
use durian.State
use durian.State.{State, new_state}
use durian.Env.{with_limit, memory_ref, memory_size}
use durian.Parser.{gas_rules, payload}
use durian.Runtime.{
  Runtime, new_runtime, charge_gas, charge, adjusted, adjusted_charge, gas_left, into_result,
  on_state, arg_u32, memory_get, memory_set, h256_at,
}
use durian.Runtime.Storage.{
  update_state as write_state, write_price, storage_read, storage_write, add_sstore_refund,
}
use durian.Runtime.Output.{ret, gas}
use durian.Runtime.Dispatch.{invoke_index, without_value, with_value}
use durian.Interpreter.{Guest, Instance, run}
use durian.Interpreter.Confined.{run_confined, run-IsCoherent}
use durian.State.View.{value_at}
use durian.State.Commit.{slot-update_state, written_account}
use durian.State.Coherent.{IsCoherent, value_at-update_state}
use durian.State.Coherent.Kept.{new_state-IsCoherent, IsCoherent-set_storage}
use durian.Provider.Store.{IsStore, slot}
use durian.Execute.Committed.{value_at-run_and_settle}
use durian.Blockchain.Store.{
  HasFreshAliases, contract_alias, contract_alias-injective, chain_provider-IsStore,
}
use durian.Decimal.{decimal}
use durian.Execute.{
  ResultData, schedule, check_result, is_create, adjusted_gas, restored_gas, action_params,
  instantiate, start_result, run_contract, commit, settle, run_and_settle, in_runtime, run_with,
  run_code, execute, result_data,
}
use durian.Execute.Writes.{WritesSucceed, execute-error_keeps, execute-empty_keeps}
use durian.Execute.Gas.{execute-gas_left, gas_left-run_contract}
use durian.Execute.Traps.{lenient, execute-lenient}
use durian.Blockchain
use durian.Blockchain.{Blockchain, chain_provider, change_unwrapped, find_account, change_account}
use durian.Tests.Fixtures.{
  key_one, plain_crates, plain_crates-IsDocumented, byte_memory, plain_chain_crates, plain_tools,
  plain_interpreter, chain_with, chain, call_contract, call_params, hash_two, contract, machine,
  spender, writer, crates_mul, crates_div, number_from, u32_from, get_bytes, set_bytes,
}

-- A transaction to the contract with the given code.
unfoldable pub run_on : Bytes → Outcome ResultData × Blockchain
unfolding execute run_code ◌>>=◌ action_params schedule wasm_costs instantiate payload with_limit
    gas_rules default_schedule adjusted_gas restored_gas crates_mul crates_div memory_size
    memory_ref in_runtime new_runtime run_with run_and_settle run_contract start_result run
    invoke_index without_value with_value storage_read storage_write ret gas write_price
    add_sstore_refund arg_u32 h256_at on_state on_field unwrapped adjusted_charge charge charge_gas
    adjusted memory_get memory_set get_bytes set_bytes gas_left into_result settle commit
    check_result is_create from_wasmi from_trap u32_from number_from get insert contains_key
    State.new_state State.new_account State.fetched_account State.put_account State.fetch_account
    State.account_mut State.account State.cache_storage State.fetch_storage State.storage_at
    State.set_storage State.update_storage State.update_account State.update_accounts
    State.update_state write_state Blockchain.provider_account Blockchain.account find_account
    change_account change_unwrapped Blockchain.storage_at Blockchain.set_storage
    Blockchain.update_account
run_on code = execute Bytes Bytes Bytes call_contract (chain_with code)

abbrev outcome : Bytes → Outcome ResultData
outcome code = (run_on code).0

-- The value read is the data that comes back.
abbrev reader_data : ResultData
reader_data = result_data 89950 hash_two call_params

reader_result : outcome (0 ∷ []) ≡ ok reader_data
unfolding run_on
reader_result = refl

spender_result : outcome (1 ∷ []) ≡ err (Error.wasm (codes "Wasm Trap error: trap"))
unfolding run_on
spender_result = refl

silent_result : outcome (2 ∷ []) ≡ ok (result_data 85000 [] call_params)
unfolding run_on
silent_result = refl

unwrap_ne_err : {A : Type 0} (o : Outcome A) (e : Error) → Exec.unwrap o ≢ err e
unwrap_ne_err (ok a) e = cc
unwrap_ne_err (err d) e = cc
unwrap_ne_err Outcome.panicked e = cc

change_unwrapped-ne-err :
    (a : Address) (f : Blockchain.Account → Blockchain.Account) (bc : Blockchain) (e : Error)
    → (change_unwrapped a f bc).0 ≢ err e
unfolding change_unwrapped ◌>>=◌
change_unwrapped-ne-err a f bc e = grind (arith, unwrap_ne_err)

-- The writes of the example blockchain panic where they fail.
chain_provider-WritesSucceed : WritesSucceed chain_provider
unfolding Blockchain.set_storage Blockchain.update_account Blockchain.create_contract
chain_provider-WritesSucceed = record {
  storage = λ a k v p e. change_unwrapped-ne-err a _ p e;
  update = λ a bal nonce p e. change_unwrapped-ne-err a _ p e;
  create = λ a code p e. ground arith;
}

execute-error_keeps_example :
    (execute Bytes Bytes Bytes call_contract (chain_with (1 ∷ []))).1 ≡ chain_with (1 ∷ [])
unfolding run_on
execute-error_keeps_example =
    execute-error_keeps Bytes Bytes Bytes chain_provider-WritesSucceed call_contract
      (chain_with (1 ∷ [])) spender_result

execute-empty_keeps_example :
    (execute Bytes Bytes Bytes call_contract (chain_with (2 ∷ []))).1 ≡ chain_with (2 ∷ [])
unfolding run_on
execute-empty_keeps_example =
    execute-empty_keeps Bytes Bytes Bytes chain_provider-WritesSucceed call_contract
      (chain_with (2 ∷ [])) silent_result refl

execute-gas_left_example : (89950 ≤ 90000) × (contract ≡ contract) × (◌≡◌ {A = List LogEntry} [] [])
unfolding run_on
execute-gas_left_example =
    execute-gas_left Bytes Bytes Bytes plain_crates-IsDocumented call_contract (chain_with (0 ∷ []))
      reader_result

-- The writing program on the machine: its gas meter ends within the limit.
run_confined_example :
    let t = (run spender machine).1 in
    (t.schedule ≡ machine.schedule)
    × (t.gas_limit ≡ 200000)
    × (t.params ≡ call_params)
    × (t.state.provider ≡ chain)
    × (100 ≤ t.gas_counter)
    × (t.gas_counter ≤ 200000)
run_confined_example = run_confined spender machine (omega arith)

spender_instance : Instance Bytes
spender_instance = record { start = Guest.finish (inr none); invoke_call = spender }

gas_left-run_contract_example :
    let t = (run_contract spender_instance 2 machine).1 in gas_left t ≡ ok (200000 - t.gas_counter)
gas_left-run_contract_example = gas_left-run_contract spender_instance 2 machine (omega arith)

-- The contract without code hits an unreachable instruction, and its call ends as a success.
broken_result : outcome [] ≡ ok (result_data 90000 [] call_params)
unfolding run_on
broken_result = refl

execute-lenient_example :
    execute Bytes Bytes Bytes ⦃interpreter = lenient plain_interpreter⦄ call_contract
      (chain_with [])
    ≡ execute Bytes Bytes Bytes ⦃interpreter = plain_interpreter⦄ call_contract (chain_with [])
execute-lenient_example =
    execute-lenient Bytes Bytes Bytes plain_interpreter call_contract (chain_with [])

chain-HasFreshAliases : HasFreshAliases chain
unfolding get decimal
chain-HasFreshAliases n above within =
    ground
      (arith, contract_alias-injective 1 n, bytes_eq_iff (codes "contract_1") (contract_alias n))

-- A cache over the chain with a modified slot.
abbrev changed : State Blockchain
changed = (State.set_storage contract key_one (replicate 32 3) (new_state chain)).1

changed-IsCoherent : IsCoherent chain_provider changed
changed-IsCoherent =
    IsCoherent-set_storage contract key_one (replicate 32 3) (new_state chain)
      (new_state-IsCoherent chain)

value_at-update_state_example :
    value_at contract key_one (new_state (State.update_state changed).1.provider)
    ≡ value_at contract key_one changed
unfolding run_on
value_at-update_state_example =
    value_at-update_state chain_provider-IsStore contract key_one changed changed-IsCoherent
      chain-HasFreshAliases refl

slot-update_state_example :
    HasFreshAliases (State.update_state changed).1.provider
    × (slot chain_provider contract key_one (State.update_state changed).1.provider
        ≡ written_account
            (get contract changed.accounts)
            key_one
            (slot chain_provider contract key_one chain))
unfolding run_on
slot-update_state_example =
    slot-update_state chain_provider-IsStore contract key_one changed changed-IsCoherent.keys
      changed-IsCoherent.storages chain-HasFreshAliases refl

writer_instance : Instance Bytes
writer_instance = record { start = Guest.finish (inr none); invoke_call = writer }

abbrev fresh_machine : Runtime Blockchain Bytes
fresh_machine = record machine { state = new_state chain }

writer_result :
    (run_and_settle (Action.call contract) call_params 2 writer_instance fresh_machine).0
    ≡ ok (result_data 66890 (replicate 32 3) call_params)
unfolding run_on writer_instance
writer_result = refl

value_at-run_and_settle_example :
    value_at contract key_one (
      new_state
        (run_and_settle
          (Action.call contract)
          call_params
          2
          writer_instance
          fresh_machine).1.state.provider)
    ≡ value_at contract key_one (run_contract writer_instance 2 fresh_machine).1.state
unfolding new_state
value_at-run_and_settle_example =
    value_at-run_and_settle chain_provider-IsStore contract key_one (Action.call contract)
      call_params 2 writer_instance fresh_machine (new_state-IsCoherent chain) chain-HasFreshAliases
      writer_result (λ e. cc)

run-IsCoherent_example : IsCoherent chain_provider (run writer fresh_machine).1.state
run-IsCoherent_example = run-IsCoherent writer fresh_machine (new_state-IsCoherent chain)

chain_provider-IsStore_example : IsStore chain_provider HasFreshAliases
chain_provider-IsStore_example = chain_provider-IsStore ⦃crates = plain_chain_crates⦄
