-- ===== src/Web3/Receipt.antt =====
-- A deployment of examples/web3/src/contract_call.rs followed by the receipt of its transaction.
mod Created
use durian.Base.{
  take, replicate, ℕ, ◌+◌, ◌%◌, ◌^◌, ◌≤◌, ◌≡◌, refl, sym, ap, ◌∙◌, some, arith, Bytes, codes,
  bytes_has_eq,
}
use durian.Exec.{ok}
use durian.Types.{H256, zero_hash}
use durian.HashMap.{get}
use durian.Crates.{Crates, IsDocumented, Wasmi}
use durian.Parser.{WasmTools}
use durian.Interpreter.{Interpreter}
use durian.Transaction.{Transaction}
use durian.Execute.{ResultData}
use durian.Blockchain.{
  Blockchain, ChainCrates, transaction_hash, block_hash, get_transaction_details, latest_block_hash,
  block_number,
}
use durian.Blockchain.Blocks.{IsChain, last?-nonempty, latest_block_hash-of_last}
use durian.Web3.Request.{TransactionRequest}
use durian.Web3.Contract.{TxReceipt, or_zero, create, transaction_recipit}
use durian.Utils.{contract_address}
use durian.Web3.Receipt.Created.{create-IsCreated}

module _ ⦃crates : ChainCrates⦄ where
  -- The receipt of a recorded transaction, on a chain.
  transaction_recipit-recorded :
      (h : H256) (tx : Transaction) (ret : ResultData) (bc : Blockchain)
      → IsChain bc
      → get h bc.transactions ≡ some (tx, ret)
      → (r : TxReceipt) × (transaction_recipit h bc ≡ ok r)
        × (r.transaction_hash ≡ h)
        × (r.from ≡ tx.sender)
        × (r.gas_used ≡ ret.gas_left)
        × (r.contract_address ≡ ret.contract)
        × (r.block_number ≡ block_number bc % 2 ^ 32)
        × (latest_block_hash bc ≡ ok r.block_hash)
  unfolding transaction_recipit get_transaction_details
  transaction_recipit-recorded h tx ret bc chain e =
      let (b, last) = last?-nonempty bc.blocks chain.started in
      let latest = latest_block_hash-of_last bc b last in
      (
        record {
          transaction_hash = h;
          block_hash = block_hash b;
          from = tx.sender;
          to = replicate 20 0;
          block_number = block_number bc % 2 ^ 32;
          gas_used = ret.gas_left;
          contract_address = ret.contract;
          cumulative_gas_used = ret.gas_left;
          transaction_index = 0;
          status = codes "0x01";
        },
        rw (e, latest) refl,
        refl,
        refl,
        refl,
        refl,
        refl,
        latest,
      )

module _ (Code Loaded M : Type 0) (peek_size : Bytes → ℕ) ⦃chain_crates : ChainCrates⦄
    ⦃crates : Crates⦄ ⦃wasmi : Wasmi M⦄ ⦃tools : WasmTools Code⦄
    ⦃interpreter : Interpreter Code Loaded M⦄ where
  -- On a chain, the receipt that is asked for right after a deployment that returned is given. It names
  -- the sender, the address that belongs to the sender and the code in front of the data, a block two
  -- after the one before the deployment (modulo 2^32) and the hash of the latest block, and its
  -- `gas_used` is at most the gas that was sent.
  pub transaction_recipit-create :
      IsDocumented crates
      → (request : TransactionRequest) (clock : ℕ → ℕ) (bc : Blockchain) {h : H256} → IsChain bc
      → (create Code Loaded M peek_size request clock bc).0 ≡ ok h
      → let bc' = (create Code Loaded M peek_size request clock bc).1 in
        (r : TxReceipt) × (transaction_recipit h bc' ≡ ok r)
        × (r.transaction_hash ≡ h)
        × (request.from ≡ some r.from)
        × ((code : Bytes) × (request.data_bytes ≡ some code)
            × (r.contract_address ≡ contract_address r.from (take (peek_size code) code) zero_hash))
        × (r.gas_used ≤ or_zero request.gas)
        × (r.block_number ≡ (block_number bc + 2) % 2 ^ 32)
        × (latest_block_hash bc' ≡ ok r.block_hash)
  transaction_recipit-create doc request clock bc {h} chain e =
      let (from, given, (code, given_code, c)) =
        create-IsCreated Code Loaded M peek_size doc request clock bc chain e in
      let bc' = (create Code Loaded M peek_size request clock bc).1 in
      let (r, got, hash, sender, left, at, num, latest) =
        transaction_recipit-recorded h c.tx c.ret bc' c.chain c.recorded in
      (
        r,
        got,
        hash,
        given ∙ ap some (sym (sender ∙ c.sender)),
        (
          code,
          given_code,
          at
              ∙ c.address
              ∙ ap (λ a. contract_address a (take (peek_size code) code) zero_hash)
                  (sym (sender ∙ c.sender)),
        ),
        omega (arith, left, c.gas_left),
        num ∙ ap (λ n. n % 2 ^ 32) c.number,
        latest,
      )
