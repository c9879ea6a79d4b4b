-- ===== src/Tests/Sessions.antt =====
-- The sessions of the examples and a deployment of the service, run to their ends.
use durian.Base.{take, replicate, ◌≤◌, ◌≡◌, ◌∷◌, ◌++◌, [], refl, Bytes, none, ◌+◌, ◌%◌, ◌^◌, some}
use durian.Error.{from_wasmi, from_trap}
use durian.Exec.{Outcome, ok, ◌>>=◌, on_field, unwrapped}
use durian.HashMap.{get, insert, contains_key}
use durian.Types.{H256, zero_hash}
use durian.Schedule.{default_schedule, wasm_costs}
use durian.State
use durian.State.{State, new_state}
use durian.Env.{with_limit, memory_ref, memory_size}
use durian.Parser.{gas_rules, payload}
use durian.Runtime.{
  new_runtime, charge_gas, charge, adjusted, adjusted_charge, gas_left, into_result, on_state,
  arg_u32, memory_get, memory_set, h256_at,
}
use durian.Runtime.Storage
use durian.Runtime.Storage.{
  update_state as write_state, write_price, storage_read, storage_write, add_sstore_refund,
}
use durian.Runtime.Output.{ret, gas}
use durian.Runtime.Dispatch.{invoke_index, without_value, with_value}
use durian.Interpreter.{run}
use durian.Decimal.{decimal}
use durian.Execute.{
  schedule, check_result, is_create, adjusted_gas, restored_gas, action_params, instantiate,
  start_result, run_contract, commit, settle, run_and_settle, in_runtime, run_with, run_code,
  execute,
}
use durian.Blockchain
use durian.Blockchain.{
  inc_nonce, add_transactions, transaction_hash, block_hash, address_from_alias, new_blockchain,
  block_number, latest_block_hash, Blockchain, change_unwrapped, find_account, change_account,
}
use durian.Tests.Fixtures.{
  plain_crates, plain_crates-IsDocumented, byte_memory, plain_chain_crates, plain_tools,
  plain_interpreter, genesis, genesis-IsChain, crates_mul, crates_div, number_from, u32_from,
  get_bytes, set_bytes,
}
use durian.Transaction.{make_create, make_call, make_create_embedded_code}
use durian.Utils.{contract_address, keccak}
use durian.Cli
use durian.Cli.{transact}
use durian.Web3.Request.{TransactionRequest}
use durian.Web3.Contract.{TxReceipt, record_creation, create, transaction_recipit}
use durian.Web3.Receipt.{transaction_recipit-create}

cli_end : Outcome (Unit {0}) × Blockchain
unfolding execute run_code ◌>>=◌ action_params schedule wasm_costs instantiate payload with_limit
    gas_rules default_schedule adjusted_gas restored_gas crates_mul crates_div memory_size
    memory_ref in_runtime new_runtime run_with run_and_settle run_contract start_result run
    invoke_index without_value with_value storage_read storage_write ret gas write_price
    add_sstore_refund arg_u32 h256_at on_state on_field unwrapped adjusted_charge charge charge_gas
    adjusted memory_get memory_set get_bytes set_bytes gas_left into_result settle commit
    check_result is_create from_wasmi from_trap u32_from number_from get insert contains_key
    State.new_state State.new_account State.fetched_account State.put_account State.fetch_account
    State.account_mut State.account State.cache_storage State.fetch_storage State.storage_at
    State.set_storage State.update_storage State.update_account State.update_accounts
    State.update_state write_state Blockchain.provider_account Blockchain.account find_account
    change_account change_unwrapped Blockchain.storage_at Blockchain.set_storage
    Blockchain.update_account Cli.session transact make_create make_call Blockchain.commit inc_nonce
    add_transactions transaction_hash block_hash address_from_alias new_blockchain
    Blockchain.new_account contract_address keccak Blockchain.create_contract Blockchain.exist
    decimal
cli_end = Cli.session Bytes Bytes Bytes (0 ∷ []) (λ n. n) genesis

cli_returns : cli_end.0 ≡ ok tt
unfolding cli_end Storage.init_code State.init_code
cli_returns = refl

abbrev deploy_request : TransactionRequest
deploy_request = record {
  from = some (replicate 20 1);
  to = none;
  gas_price = none;
  gas = some 1000000;
  value = none;
  data_bytes = some (0 ∷ 7 ∷ []);
  nonce = none;
}

deployment : Outcome H256 × Blockchain
unfolding execute run_code ◌>>=◌ action_params schedule wasm_costs instantiate payload with_limit
    gas_rules default_schedule adjusted_gas restored_gas crates_mul crates_div memory_size
    memory_ref in_runtime new_runtime run_with run_and_settle run_contract start_result run
    invoke_index without_value with_value storage_read storage_write ret gas write_price
    add_sstore_refund arg_u32 h256_at on_state on_field unwrapped adjusted_charge charge charge_gas
    adjusted memory_get memory_set get_bytes set_bytes gas_left into_result settle commit
    check_result is_create from_wasmi from_trap u32_from number_from get insert contains_key
    State.new_state State.new_account State.fetched_account State.put_account State.fetch_account
    State.account_mut State.account State.cache_storage State.fetch_storage State.storage_at
    State.set_storage State.update_storage State.update_account State.update_accounts
    State.update_state write_state Blockchain.provider_account Blockchain.account find_account
    change_account change_unwrapped Blockchain.storage_at Blockchain.set_storage
    Blockchain.update_account create record_creation make_create_embedded_code make_create make_call
    Blockchain.commit inc_nonce add_transactions transaction_hash block_hash address_from_alias
    new_blockchain Blockchain.new_account contract_address keccak Blockchain.create_contract
    Blockchain.exist decimal
deployment = create Bytes Bytes Bytes (λ b. 1) deploy_request (λ n. n) genesis

abbrev deployment_hash : H256
deployment_hash = replicate 20 1 ++ replicate 12 0

deployed : deployment.0 ≡ ok deployment_hash
unfolding deployment Storage.init_code State.init_code
deployed = refl

transaction_recipit-create_example :
    (r : TxReceipt) × (transaction_recipit deployment_hash deployment.1 ≡ ok r)
    × (r.transaction_hash ≡ deployment_hash)
    × (some (replicate 20 1) ≡ some r.from)
    × ((code : Bytes) × (some (0 ∷ 7 ∷ []) ≡ some code)
        × (r.contract_address ≡ contract_address r.from (take 1 code) zero_hash))
    × (r.gas_used ≤ 1000000)
    × (r.block_number ≡ (block_number genesis + 2) % 2 ^ 32)
    × (latest_block_hash deployment.1 ≡ ok r.block_hash)
unfolding deployment create
transaction_recipit-create_example =
    transaction_recipit-create Bytes Bytes Bytes (λ b. 1) plain_crates-IsDocumented deploy_request
      (λ n. n) genesis genesis-IsChain deployed
