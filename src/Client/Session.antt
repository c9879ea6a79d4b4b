-- ===== src/Client/Session.antt =====
-- `main` of examples/durian-client/src/main.rs: the session of examples/cli with the transactions
-- executed by a virtual machine at the other end of a connection. The mutex around the blockchain is
-- held for one call each.
use durian.Base.{ℕ, Bytes, codes}
use durian.Exec.{Exec, lift, query, pure, ◌>>=◌, ◌>>◌}
use durian.Types.{zero_hash}
use durian.Crates.{Crates, Wasmi}
use durian.Parser.{WasmTools}
use durian.Interpreter.{Interpreter}
use durian.Transaction.{Transaction, make_create, make_call}
use durian.Execute.{ResultData}
use durian.Blockchain.{
  Blockchain, ChainCrates, commit, inc_nonce, add_transactions, address_from_alias,
}
use durian.Wire.{WireCrates, Connection}
use durian.Server.Executor.{serve}
use durian.Client.Messages.{build_tx, read_result}
use durian.Client.Provider.{provider_impl}
use durian.Cli.{deploy_params, transfer_params, total_supply_params, balance_of_params}

module _ ⦃chain_crates : ChainCrates⦄ where
  -- What is recorded of a transaction: the sender's nonce, a block, the transaction.
  unfoldable pub record_transaction : Bytes → Transaction → ResultData → ℕ → Exec Blockchain Unit
  record_transaction alias tx ret now = do
    inc_nonce alias
    commit now
    hash ← add_transactions tx ret
    pure tt

module _ (Code Loaded M : Type 0) (connection : Connection) ⦃wire : WireCrates⦄ ⦃crates : Crates⦄
    ⦃wasmi : Wasmi M⦄ ⦃tools : WasmTools Code⦄ ⦃interpreter : Interpreter Code Loaded M⦄ where
  -- `request.send().promise.await?.get()?.into()` on a request with the transaction.
  unfoldable pub submit : Transaction → Exec Blockchain ResultData
  submit tx = do
    m ← serve Code Loaded M ⦃client = provider_impl⦄ (connection.deliver (build_tx tx))
    lift (read_result (connection.deliver_result m))

  module _ ⦃chain_crates : ChainCrates⦄ where
    unfoldable pub session : Bytes → (ℕ → ℕ) → Exec Blockchain Unit
    session code clock = do
      commit (clock 0)
      sender1 ← query (address_from_alias (codes "alice"))
      let tx1 = make_create sender1 0 1000000 0 code deploy_params zero_hash
      ret1 ← submit tx1
      commit (clock 1)
      record_transaction (codes "alice") tx1 ret1 (clock 2)
      to ← query (address_from_alias (codes "bob"))
      sender2 ← query (address_from_alias (codes "alice"))
      let tx2 = make_call sender2 ret1.contract 0 1000000 0 (transfer_params to)
      ret2 ← submit tx2
      record_transaction (codes "alice") tx2 ret2 (clock 3)
      sender3 ← query (address_from_alias (codes "alice"))
      let tx3 = make_call sender3 ret1.contract 0 1000000 0 total_supply_params
      ret3 ← submit tx3
      record_transaction (codes "alice") tx3 ret3 (clock 4)
      owner ← query (address_from_alias (codes "bob"))
      sender4 ← query (address_from_alias (codes "bob"))
      let tx4 = make_call sender4 ret1.contract 0 1000000 0 (balance_of_params owner)
      ret4 ← submit tx4
      record_transaction (codes "bob") tx4 ret4 (clock 5)
