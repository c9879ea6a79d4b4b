-- ===== src/Web3/Receipt/Created.antt =====
-- What a deployment by examples/web3/src/contract_call.rs leaves.
use durian.Base.{
  take, ℕ, ◌+◌, ◌≤◌, ◌≡◌, refl, sym, ap, ◌∙◌, Option, some, none, arith, Bytes, codes, bytes_has_eq,
}
use mathlib.Core.Path.{subst}
use durian.Exec.{ok, unwrap_option, unwrapped, lift, pure, ◌>>=◌}
use durian.Exec.Bind.{>>=-ok, unwrapped-eq-ok}
use durian.Types.{Address, H256, zero_hash}
use durian.HashMap.{get, get-insert_self}
use durian.Crates.{Crates, IsDocumented, Wasmi}
use durian.Parser.{WasmTools}
use durian.Interpreter.{Interpreter}
use durian.Transaction.{Transaction, Action, make_create_embedded_code}
use durian.Execute.{ResultData, execute}
use durian.Execute.Gas.{execute-gas_left, contract_of}
use durian.Utils.{contract_address}
use durian.Blockchain.{
  Blockchain, ChainCrates, commit, add_transactions, inc_nonce, transaction_hash, block_number,
  chain_provider,
}
use durian.Blockchain.Blocks.{IsChain, commit-IsChain}
use durian.Blockchain.Records.{execute-keeps_records, IsChain-of_blocks}
use durian.Web3.Request.{TransactionRequest}
use durian.Web3.Contract.{or_zero, record_creation, create}

module _ ⦃crates : ChainCrates⦄ where
  transactions-commit :
      (now : ℕ) (bc : Blockchain) → (commit now bc).1.transactions ≡ bc.transactions
  unfolding commit ◌>>=◌
  transactions-commit now bc = ground arith

  inc_nonce-keeps :
      (alias : Bytes) (bc : Blockchain)
      → ((inc_nonce alias bc).1.transactions ≡ bc.transactions)
        × ((inc_nonce alias bc).1.blocks ≡ bc.blocks)
  unfolding inc_nonce ◌>>=◌
  inc_nonce-keeps alias bc = (ground arith, ground arith)

  add_transactions-recorded :
      (tx : Transaction) (ret : ResultData) (bc : Blockchain) {h : H256}
      → (add_transactions tx ret bc).0 ≡ ok h
      → (get h (add_transactions tx ret bc).1.transactions ≡ some (tx, ret))
        × ((add_transactions tx ret bc).1.blocks ≡ bc.blocks)
  unfolding add_transactions ◌>>=◌
  add_transactions-recorded tx ret bc {h} e =
      (grind (arith, get-insert_self (transaction_hash tx) (tx, ret) bc.transactions), refl)

  block_number-of_blocks :
      (s t : Blockchain) → t.blocks ≡ s.blocks → block_number t ≡ block_number s
  unfolding block_number
  block_number-of_blocks s t e = rw (block_number, e) refl

make_create_embedded_code-fields :
    (peek_size : Bytes → ℕ) (sender : Address) (value gas gas_price : ℕ) (code : Bytes)
    (salt : H256) {tx : Transaction}
    → make_create_embedded_code peek_size sender value gas gas_price code salt ≡ ok tx
    → (tx.sender ≡ sender)
      × (tx.gas ≡ gas)
      × (tx.action ≡ Action.create (take (peek_size code) code) salt)
unfolding make_create_embedded_code
make_create_embedded_code-fields peek_size sender value gas gas_price code salt e =
    (ground arith, ground arith, ground arith)

-- What a deployment leaves: a transaction from the sender is recorded under the hash with the address
-- of the contract, and the blocks are a chain of the given height.
pub record IsCreated ⦃chain_crates : ChainCrates⦄ (from contract : Address) (gas num : ℕ) (h : H256)
    (bc : Blockchain) : Type 0 where
  pub tx : Transaction
  pub ret : ResultData
  pub recorded : get h bc.transactions ≡ some (tx, ret)
  pub sender : tx.sender ≡ from
  pub address : ret.contract ≡ contract
  pub gas_left : ret.gas_left ≤ gas
  pub chain : IsChain bc
  pub number : block_number bc ≡ num

record_creation-IsCreated :
    ⦃chain_crates : ChainCrates⦄
    → (tx : Transaction) (ret : ResultData) (now : ℕ) (s : Blockchain) {h : H256} → IsChain s
    → ret.gas_left ≤ tx.gas
    → (record_creation tx ret now s).0 ≡ ok h
    → IsCreated tx.sender ret.contract tx.gas
        (block_number s + 1)
        h
        (record_creation tx ret now s).1
unfolding record_creation pure
record_creation-IsCreated tx ret now s {h} chain left e =
    let (h1, e1, r1, a1) = >>=-ok (add_transactions tx ret) _ s e in
    let s1 = (add_transactions tx ret s).1 in
    let (u2, e2, r2, a2) = >>=-ok (inc_nonce (codes "naga")) _ s1 r1 in
    let s2 = (inc_nonce (codes "naga") s1).1 in
    let (u3, e3, r3, a3) = >>=-ok (commit now) _ s2 r2 in
    let s3 = (commit now s2).1 in
    let (found, blocks1) = add_transactions-recorded tx ret s (e1 ∙ r3) in
    let (kept, blocks2) = inc_nonce-keeps (codes "naga") s1 in
    let chain2 : IsChain s2 = IsChain-of_blocks s s2 (blocks2 ∙ blocks1) chain in
    let (committed, chain3, number, linked) = commit-IsChain now s2 chain2 in
    let end : (record_creation tx ret now s).1 ≡ s3 = ap (λ r. r.1) (a1 ∙ a2 ∙ a3) in
    subst (IsCreated tx.sender ret.contract tx.gas (block_number s + 1) h) (sym end) (record {
      tx = tx;
      ret = ret;
      recorded = ap (get h) (transactions-commit now s2 ∙ kept) ∙ found;
      sender = refl;
      address = refl;
      gas_left = left;
      chain = chain3;
      number = number ∙ ap (λ n. n + 1) (block_number-of_blocks s s2 (blocks2 ∙ blocks1));
    })

unwrap_option-eq-ok : {A : Type 0} (o : Option A) {a : A} → unwrap_option o ≡ ok a → o ≡ some a
unwrap_option-eq-ok none e = absurd cc
unwrap_option-eq-ok (some x) e = ground arith

module _ (Code Loaded M : Type 0) (peek_size : Bytes → ℕ) ⦃chain_crates : ChainCrates⦄
    ⦃crates : Crates⦄ ⦃wasmi : Wasmi M⦄ ⦃tools : WasmTools Code⦄
    ⦃interpreter : Interpreter Code Loaded M⦄ where
  pub create-IsCreated :
      IsDocumented crates
      → (request : TransactionRequest) (clock : ℕ → ℕ) (bc : Blockchain) {h : H256} → IsChain bc
      → (create Code Loaded M peek_size request clock bc).0 ≡ ok h
      → (from : Address) × (request.from ≡ some from)
        × ((code : Bytes) × (request.data_bytes ≡ some code)
            × IsCreated from
                (contract_address from (take (peek_size code) code) zero_hash)
                (or_zero request.gas)
                (block_number bc + 2)
                h
                (create Code Loaded M peek_size request clock bc).1)
  unfolding create lift unwrapped
  create-IsCreated doc request clock bc {h} chain e =
      let (from, e1, r1, a1) = >>=-ok (lift (unwrap_option request.from)) _ bc e in
      let (code, e2, r2, a2) = >>=-ok (lift (unwrap_option request.data_bytes)) _ bc r1 in
      let (gas, e3, r3, a3) = >>=-ok (lift (unwrap_option request.gas)) _ bc r2 in
      let (u, e4, r4, a4) = >>=-ok (commit (clock 0)) _ bc r3 in
      let s1 = (commit (clock 0) bc).1 in
      let (tx, e5, r5, a5) =
        >>=-ok
          (lift
            (make_create_embedded_code peek_size from (or_zero request.value) gas 0 code zero_hash))
          _ s1 r4 in
      let (ret, e6, r6, a6) = >>=-ok (unwrapped (execute Code Loaded M tx)) _ s1 r5 in
      let s2 = (execute Code Loaded M tx s1).1 in
      let (blocks2, kept) = execute-keeps_records Code Loaded M tx s1 in
      let (left, at_address, none_logged) =
        execute-gas_left Code Loaded M doc tx s1
          (unwrapped-eq-ok (execute Code Loaded M tx) s1 e6) in
      let (sender, brought, action) =
        make_create_embedded_code-fields peek_size from (or_zero request.value) gas 0 code zero_hash
          e5 in
      let (committed, chain1, number, linked) = commit-IsChain (clock 0) bc chain in
      let c =
        record_creation-IsCreated tx ret (clock 1) s2 (IsChain-of_blocks s1 s2 blocks2 chain1) left
          r6 in
      let end = ap (λ r. r.1) (a1 ∙ a2 ∙ a3 ∙ a4 ∙ a5 ∙ a6) in
      (
        from,
        unwrap_option-eq-ok request.from e1,
        (
          code,
          unwrap_option-eq-ok request.data_bytes e2,
          subst
              (IsCreated from (contract_address from (take (peek_size code) code) zero_hash)
                (or_zero request.gas) (block_number bc + 2) h)
              (sym end)
              (record {
                tx = c.tx;
                ret = c.ret;
                recorded = c.recorded;
                sender = c.sender ∙ sender;
                address =
                    c.address
                    ∙ at_address
                    ∙ ap (contract_of tx) action
                    ∙ ap (λ a. contract_address a (take (peek_size code) code) zero_hash) sender;
                gas_left =
                    omega
                      (arith, c.gas_left, brought, ap or_zero (unwrap_option-eq-ok request.gas e3));
                chain = c.chain;
                number = omega (arith, c.number, block_number-of_blocks s1 s2 blocks2, number);
              }),
        ),
      )
