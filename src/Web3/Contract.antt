-- ===== src/Web3/Contract.antt =====
-- examples/web3/src/contract_call.rs: deploying a contract, and the receipt of a transaction. The
-- clock gives the times of the two blocks that a deployment commits.
use durian.Base.{ℕ, ◌%◌, ◌^◌, Option, some, none, Bytes, codes, replicate}
use durian.Exec.{Outcome, ok, Exec, and_then, unwrap_option, unwrapped, lift, pure, ◌>>=◌, ◌>>◌}
use durian.Types.{Address, H256, zero_hash}
use durian.Crates.{Crates, Wasmi}
use durian.Parser.{WasmTools}
use durian.Interpreter.{Interpreter}
use durian.Transaction.{Transaction, make_create_embedded_code}
use durian.Execute.{ResultData, execute}
use durian.Blockchain.{
  Blockchain, ChainCrates, commit, add_transactions, inc_nonce, get_transaction_details,
  latest_block_hash, block_number, chain_provider,
}
use durian.Web3.Request.{TransactionRequest}

-- examples/web3/src/types/transaction_recepits.rs
pub record TxReceipt : Type 0 where
  pub transaction_hash : H256
  pub transaction_index : ℕ
  pub block_hash : H256
  pub from : Address
  pub to : Address
  pub block_number : ℕ
  pub gas_used : ℕ
  pub contract_address : Address
  pub cumulative_gas_used : ℕ
  pub status : Bytes

-- `unwrap_or(U256::zero())`
abbrev pub or_zero : Option ℕ → ℕ
or_zero none = 0
or_zero (some n) = n

-- The end of `create`, once the contract is deployed.
unfoldable pub record_creation :
    ⦃chain_crates : ChainCrates⦄ → Transaction → ResultData → ℕ → Exec Blockchain H256
record_creation tx1 ret1 now = do
  tx_hash ← add_transactions tx1 ret1
  inc_nonce (codes "naga")
  commit now
  pure tx_hash

module _ (Code Loaded M : Type 0) (peek_size : Bytes → ℕ) ⦃chain_crates : ChainCrates⦄
    ⦃crates : Crates⦄ ⦃wasmi : Wasmi M⦄ ⦃tools : WasmTools Code⦄
    ⦃interpreter : Interpreter Code Loaded M⦄ where
  unfoldable pub create : TransactionRequest → (ℕ → ℕ) → Exec Blockchain H256
  create request clock = do
    from ← lift (unwrap_option request.from)
    code ← lift (unwrap_option request.data_bytes)
    gas ← lift (unwrap_option request.gas)
    commit (clock 0)
    tx1 ←
        lift (make_create_embedded_code peek_size from (or_zero request.value) gas 0 code zero_hash)
    ret1 ← unwrapped (execute Code Loaded M tx1)
    record_creation tx1 ret1 (clock 1)

module _ ⦃chain_crates : ChainCrates⦄ where
  unfoldable pub transaction_recipit : H256 → Blockchain → Outcome TxReceipt
  transaction_recipit params bc = and_then (get_transaction_details params bc) λ tx_details.
      let (tx, result) = tx_details in
      and_then (latest_block_hash bc) λ hash. ok (record {
        transaction_hash = params;
        block_hash = hash;
        from = tx.sender;
        to = replicate 20 0;
        block_number = block_number bc % 2 ^ 32;
        gas_used = result.gas_left;
        contract_address = result.contract;
        cumulative_gas_used = result.gas_left;
        transaction_index = 0;
        status = codes "0x01";
      })
