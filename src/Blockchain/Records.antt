-- ===== src/Blockchain/Records.antt =====
-- What each operation of examples/blockchain/src/blockchain.rs, and `execute` over it, does to the
-- blocks and to the recorded transactions.
use durian.Base.{
  ℕ, ◌≡◌, refl, sym, ◌∙◌, ap, List, [], ◌∷◌, ◌++◌, arith, Bytes, length, Option-cases, inl, inr,
}
use mathlib.Core.List.{append_assoc, append-nil}
use durian.Exec.{◌>>=◌}
use durian.Exec.Steps.{Steps, IsPreorder, Steps-modify, steps_rules}
use durian.HashMap.{HashMap}
use durian.Types.{Address, H256}
use durian.Crates.{Crates, Wasmi}
use durian.Parser.{WasmTools}
use durian.Interpreter.{Interpreter}
use durian.Transaction.{Transaction}
use durian.Execute.{ResultData, execute}
use durian.Execute.Preserved.{WritesKeep, execute-keeps}
use durian.Blockchain
use durian.Blockchain.{
  Block, Account, Blockchain, ChainCrates, last?, block_hash, commit, add_transactions, inc_nonce,
  change_unwrapped, chain_provider,
}
use durian.Blockchain.Blocks.{IsChain, commit-IsChain}

module _ ⦃crates : ChainCrates⦄ where
  -- The blocks and the records of transactions, which no write of the `Provider` touches.
  pub record HasRecords (bs : List Block) (ts : HashMap H256 (Transaction × ResultData))
      (bc : Blockchain) : Type 0 where
    pub blocks : bc.blocks ≡ bs
    pub transactions : bc.transactions ≡ ts

  change_unwrapped-HasRecords :
      (a : Address) (f : Account → Account) (bc : Blockchain) {bs : List Block}
      {ts : HashMap H256 (Transaction × ResultData)}
      → HasRecords bs ts bc
      → HasRecords bs ts (change_unwrapped a f bc).1
  unfolding change_unwrapped ◌>>=◌
  change_unwrapped-HasRecords a f bc h = record {
    blocks = ground (arith, h.blocks);
    transactions = ground (arith, h.transactions);
  }

  create_contract-HasRecords :
      (a : Address) (code : Bytes) (bc : Blockchain) {bs : List Block}
      {ts : HashMap H256 (Transaction × ResultData)}
      → HasRecords bs ts bc
      → HasRecords bs ts (Blockchain.create_contract a code bc).1
  unfolding Blockchain.create_contract
  create_contract-HasRecords a code bc h = record {
    blocks = ground (arith, h.blocks);
    transactions = ground (arith, h.transactions);
  }

  pub writes_keep_records :
      (bs : List Block) (ts : HashMap H256 (Transaction × ResultData))
      → WritesKeep chain_provider (HasRecords bs ts)
  unfolding Blockchain.set_storage Blockchain.update_account
  writes_keep_records bs ts = record {
    storage = λ a k v p h. change_unwrapped-HasRecords a _ p h;
    update = λ a balance nonce p h. change_unwrapped-HasRecords a _ p h;
    create = λ a code p h. create_contract-HasRecords a code p h;
  }

module _ (Code Loaded M : Type 0) ⦃crates : ChainCrates⦄ ⦃vm_crates : Crates⦄ ⦃wasmi : Wasmi M⦄
    ⦃tools : WasmTools Code⦄ ⦃interpreter : Interpreter Code Loaded M⦄ where
  -- However a transaction ends, `execute` leaves the blocks and the recorded transactions of the
  -- blockchain as they were.
  pub execute-keeps_records :
      (transaction : Transaction) (bc : Blockchain)
      → let bc' = (execute Code Loaded M transaction bc).1 in
        (bc'.blocks ≡ bc.blocks) × (bc'.transactions ≡ bc.transactions)
  execute-keeps_records transaction bc =
      let kept =
        execute-keeps Code Loaded M (writes_keep_records bc.blocks bc.transactions) transaction bc
          (record { blocks = refl; transactions = refl }) in
      (kept.blocks, kept.transactions)

-- From one state of a blockchain to the next: no block is taken away or changed, and what was a chain
-- still is.
pub record Extends ⦃crates : ChainCrates⦄ (s t : Blockchain) : Type 0 where
  pub more : List Block
  pub blocks : t.blocks ≡ s.blocks ++ more
  pub chain : IsChain s → IsChain t

module _ ⦃crates : ChainCrates⦄ where
  pub IsChain-of_blocks : (s t : Blockchain) → t.blocks ≡ s.blocks → IsChain s → IsChain t
  IsChain-of_blocks s t e h = record { started = rw e h.started; linked = rw e h.linked }

  pub Extends-same_blocks : (s t : Blockchain) → t.blocks ≡ s.blocks → Extends s t
  Extends-same_blocks s t e = record {
    more = [];
    blocks = e ∙ sym (append-nil s.blocks);
    chain = IsChain-of_blocks s t e;
  }

  Extends-chain : (s t u : Blockchain) → Extends s t → Extends t u → Extends s u
  Extends-chain s t u p q = record {
    more = p.more ++ q.more;
    blocks = q.blocks ∙ ap (λ bs. bs ++ q.more) p.blocks ∙ append_assoc s.blocks p.more q.more;
    chain = λ h. q.chain (p.chain h);
  }

  instance pub extends : IsPreorder Extends
  extends = record { same = λ s. Extends-same_blocks s s refl; chain = Extends-chain }

  commit-blocks :
      (now : ℕ) (s : Blockchain)
      → (more : List Block) × ((commit now s).1.blocks ≡ s.blocks ++ more)
  unfolding commit ◌>>=◌
  commit-blocks now s = elim (Option-cases (last? s.blocks)) [
    | inl missing ↦ ([], rw missing (sym (append-nil s.blocks)))
    | inr (b, e) ↦
        (record { num = length s.blocks; prev = block_hash b; time = now } ∷ [], rw e refl)
  ]

  pub commit-Extends : (now : ℕ) → Steps Extends (commit now)
  commit-Extends now = record {
    at = λ s.
        let (more, e) = commit-blocks now s in
        record { more = more; blocks = e; chain = λ h. (commit-IsChain now s h).1 };
  }

  pub add_transactions-Extends :
      (tx : Transaction) (d : ResultData) → Steps Extends (add_transactions tx d)
  unfolding add_transactions ◌>>=◌
  add_transactions-Extends tx d = record { at = λ s. Extends-same_blocks s _ refl }

  pub inc_nonce-Extends : (alias : Bytes) → Steps Extends (inc_nonce alias)
  unfolding inc_nonce
  inc_nonce-Extends alias = search (steps_rules, Steps-modify, Extends-same_blocks)

module _ (Code Loaded M : Type 0) ⦃crates : ChainCrates⦄ ⦃vm_crates : Crates⦄ ⦃wasmi : Wasmi M⦄
    ⦃tools : WasmTools Code⦄ ⦃interpreter : Interpreter Code Loaded M⦄ where
  pub execute-Extends :
      (transaction : Transaction) → Steps Extends (execute Code Loaded M transaction)
  execute-Extends transaction = record {
    at = λ s. Extends-same_blocks s _ (execute-keeps_records Code Loaded M transaction s).0;
  }
