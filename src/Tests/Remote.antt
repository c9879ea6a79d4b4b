-- ===== src/Tests/Remote.antt =====
-- The service, its client and the sessions, at concrete inputs.
use durian.Base.{
  ℕ, zero, suc, ◌+◌, ◌*◌, ◌/◌, ◌%◌, ◌^◌, ◌<◌, ◌≡◌, refl, some, List, [], ◌∷◌, ◌++◌, arith,
  if◌then◌else◌, leb, ◌==◌, Bytes, codes, length,
}
use durian.Error.{Error}
use durian.Exec.{Outcome, ok, err, panicked}
use durian.HashMap.{HashMap, get}
use durian.Types.{H256}
use durian.Transaction.{Transaction}
use durian.Execute.{ResultData, result_data, execute}
use durian.State
use durian.State.{State, AccountInfo}
use durian.Blockchain
use durian.Blockchain.{
  Blockchain, Block, chain_provider, find_account, commit, block_number, block_hash_at,
  latest_block_hash,
}
use durian.Blockchain.Blocks.{IsChain, commit-IsChain}
use durian.Blockchain.Records.{execute-keeps_records}
use durian.Wire.{WireCrates, IsWireDocumented, Connection, IsReliable, delivered}
use durian.Server.Adaptor.{adaptor}
use durian.Server.Executor.{read_transaction, answer, send_result}
use durian.Server.Exchange.{IsTransaction, read_transaction-build_tx}
use durian.Server.Wait.{Turn, spawn, run, step, task_turns, reply-run, reply-run_fair}
use durian.Client.Messages.{build_tx}
use durian.Client.Provider.{provider_impl}
use durian.Client.Remote.{AreSized, update_account-remote}
use durian.Client.Session
use durian.Client.Session.{submit}
use durian.Client.Submit.{received}
use durian.Client.Faithful.{on_chain, submit-execute, submit-execute_call}
use durian.Tests.Quiet.{program-MayLoad}
use durian.Client.Chain.{remote_session-IsChain}
use durian.Tests.Fixtures.{
  plain_crates, plain_crates-IsDocumented, byte_memory, byte_memory-FillsBuffers,
  plain_chain_crates, plain_tools, plain_interpreter, chain_with, chain, call_contract, call_params,
  hash_two, contract, genesis, genesis-IsChain,
}

-- The last byte first.
unfoldable little_endian : ℕ → ℕ → Bytes
little_endian zero x = []
little_endian (suc n) x = (x % 256) ∷ little_endian n (x / 256)

unfoldable little_number : Bytes → ℕ
little_number [] = 0
little_number (b ∷ r) = b + 256 * little_number r

abbrev sized : ℕ → Bytes → Outcome Bytes
sized n b = if length b == n then ok b else panicked

instance abbrev plain_wire : WireCrates
plain_wire = record {
  to_little_endian = little_endian 32;
  from_little_endian = λ b. if leb (length b) 32 then ok (little_number b) else panicked;
  address_from_slice = sized 20;
  h256_from_slice = sized 32;
  show_error = λ e. codes "error";
  unimplemented = codes "Method not implemented.";
  channel_closed = codes "channel closed";
}

little_number-little_endian : (n x : ℕ) → x < 256 ^ n → little_number (little_endian n x) ≡ x
unfolding little_endian little_number
little_number-little_endian zero x h = omega arith
little_number-little_endian (suc n) x h = ground (arith, little_number-little_endian n (x / 256))

length-little_endian : (n x : ℕ) → length (little_endian n x) ≡ n
unfolding little_endian
length-little_endian zero x = refl
length-little_endian (suc n) x = omega (arith, length-little_endian n (x / 256))

plain_wire-IsWireDocumented : IsWireDocumented plain_wire
plain_wire-IsWireDocumented = record {
  little_endian_inverse =
      λ a h. ground (arith, length-little_endian 32 a, little_number-little_endian 32 a);
  address_exact = λ a h. ground (arith, h);
  h256_exact = λ a h. ground (arith, h);
}

-- A connection that delivers what was set.
abbrev plain_connection : Connection
plain_connection = record {
  deliver = λ m. record {
    get_sender = ok m.sender;
    get_value = ok m.value;
    get_gas = ok m.gas;
    get_gas_price = ok m.gas_price;
    get_action = ok (delivered m.action);
    get_args = ok m.args;
  };
  deliver_result = λ m. record {
    get_gas_left = ok m.gas_left;
    get_data = ok m.data_bytes;
    get_contract = ok m.contract;
  };
}

plain_connection-IsReliable : IsReliable plain_connection
plain_connection-IsReliable = record {
  carries = λ m. record {
    sender = refl;
    value = refl;
    gas = refl;
    gas_price = refl;
    action = refl;
    args = refl;
  };
  carries_result = λ m. record { gas_left = refl; data_bytes = refl; contract = refl };
}

call_contract-IsTransaction : IsTransaction call_contract
call_contract-IsTransaction = record {
  sender = refl;
  value = omega arith;
  gas = omega arith;
  gas_price = omega arith;
  action = refl;
}

read_transaction-build_tx_example :
    read_transaction (plain_connection.deliver (build_tx call_contract)) ≡ ok call_contract
read_transaction-build_tx_example =
    read_transaction-build_tx plain_wire-IsWireDocumented call_contract
      (plain_connection.deliver (build_tx call_contract)) call_contract-IsTransaction
      (plain_connection-IsReliable.carries (build_tx call_contract))

abbrev some_result : Outcome ResultData
some_result = ok (result_data 89950 hash_two call_params)

-- The future asks twice before the task is done.
reply-run_example : ok (send_result (result_data 89950 hash_two call_params)) ≡ answer some_result
unfolding run step spawn send_result answer little_endian
reply-run_example =
    reply-run 1 some_result (Turn.waiter ∷ Turn.task ∷ Turn.waiter ∷ Turn.task ∷ Turn.waiter ∷ [])
      refl

reply-run_fair_example :
    (run
      ((Turn.waiter ∷ Turn.task ∷ Turn.task ∷ []) ++ Turn.waiter ∷ [])
      (spawn 1 some_result)).reply
    ≡ some (answer some_result)
unfolding task_turns
reply-run_fair_example =
    reply-run_fair 1 some_result (Turn.waiter ∷ Turn.task ∷ Turn.task ∷ []) [] (omega arith)

call_chain-AreSized : AreSized (chain_with (0 ∷ []))
unfolding Blockchain.account find_account get
call_chain-AreSized a acc e = record {
  nonce = ground (arith, e);
  balance = ground (arith, e);
  storage = λ k v h. ground (arith, e, h);
}

submit-execute_example :
    let done = execute Bytes Bytes Bytes ⦃api = on_chain⦄ call_contract (chain_with (0 ∷ [])) in
    submit Bytes Bytes Bytes plain_connection call_contract (chain_with (0 ∷ []))
    ≡ (received done.0, done.1)
submit-execute_example =
    submit-execute Bytes Bytes Bytes byte_memory-FillsBuffers plain_crates-IsDocumented
      plain_wire-IsWireDocumented plain_connection call_contract (chain_with (0 ∷ []))
      plain_connection-IsReliable call_contract-IsTransaction call_chain-AreSized

submit-execute_call_example :
    let done =
      execute Bytes Bytes Bytes ⦃api = chain_provider⦄ call_contract (chain_with (0 ∷ [])) in
    submit Bytes Bytes Bytes plain_connection call_contract (chain_with (0 ∷ []))
    ≡ (received done.0, done.1)
unfolding Blockchain.exist Blockchain.account find_account
submit-execute_call_example =
    submit-execute_call Bytes Bytes Bytes byte_memory-FillsBuffers plain_crates-IsDocumented
      plain_wire-IsWireDocumented plain_connection call_contract (chain_with (0 ∷ [])) contract
      plain_connection-IsReliable call_contract-IsTransaction call_chain-AreSized refl refl
      (λ params e. program-MayLoad params)

abbrev an_account : AccountInfo
an_account = record { nonce = 4; balance = 50; code = 0 ∷ []; storage = [] }

update_account-remote_example :
    State.update_account ⦃api = adaptor ⦃client = provider_impl⦄⦄ contract an_account chain
    ≡ (err (Error.other (codes "Method not implemented.")), chain)
unfolding Blockchain.exist Blockchain.account find_account
update_account-remote_example =
    update_account-remote plain_wire-IsWireDocumented contract an_account chain refl refl

execute-keeps_records_example :
    let bc' = (execute Bytes Bytes Bytes call_contract (chain_with (0 ∷ []))).1 in
    (bc'.blocks ≡ chain.blocks)
    × (◌≡◌ {A = HashMap H256 (Transaction × ResultData)} bc'.transactions [])
execute-keeps_records_example =
    execute-keeps_records Bytes Bytes Bytes call_contract (chain_with (0 ∷ []))

commit-IsChain_example :
    let bc' = (commit 9 genesis).1 in
    ((commit 9 genesis).0 ≡ ok tt)
    × IsChain bc'
    × (block_number bc' ≡ block_number genesis + 1)
    × (block_hash_at (block_number genesis) bc' ≡ latest_block_hash genesis)
commit-IsChain_example = commit-IsChain 9 genesis genesis-IsChain

remote_session-IsChain_example :
    let bc' = (Session.session Bytes Bytes Bytes plain_connection (0 ∷ []) (λ n. n) genesis).1 in
    IsChain bc' × ((more : List Block) × (bc'.blocks ≡ genesis.blocks ++ more))
remote_session-IsChain_example =
    remote_session-IsChain Bytes Bytes Bytes plain_connection (0 ∷ []) (λ n. n) genesis
      genesis-IsChain
