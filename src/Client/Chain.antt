-- ===== src/Client/Chain.antt =====
-- The blocks that the session of examples/durian-client/src/main.rs leaves.
use durian.Base.{ℕ, ◌≡◌, refl, ◌++◌, Bytes, List}
use durian.Exec.{Outcome, Exec, ok, err, panicked}
use durian.Exec.Steps.{Steps, steps_rules}
use durian.Types.{Address, H256}
use durian.Crates.{Crates, Wasmi}
use durian.Parser.{WasmTools}
use durian.Interpreter.{Interpreter}
use durian.Transaction.{Transaction}
use durian.Execute.{ResultData}
use durian.Execute.Preserved.{WritesKeep, Kept, kept, execute-keeps}
use durian.Blockchain
use durian.Blockchain.{Blockchain, ChainCrates, Block, chain_provider}
use durian.Blockchain.Blocks.{IsChain}
use durian.Blockchain.Records.{
  Extends, extends, writes_keep_records, Extends-same_blocks, commit-Extends,
  add_transactions-Extends, inc_nonce-Extends,
}
use durian.Wire.{WireCrates, Connection, TransactionReader}
use durian.Server.Adaptor
use durian.Server.Adaptor.{adaptor}
use durian.Server.Executor.{serve, respond, run_task}
use durian.Client.Provider
use durian.Client.Provider.{provider_impl, relayed}
use durian.Client.Session.{submit, record_transaction, session}

module _ ⦃wire : WireCrates⦄ {Holds : Blockchain → Type 0} where
  relayed-Kept : (m : Exec Blockchain Unit) → Steps (Kept Holds) m → Steps (Kept Holds) (relayed m)
  unfolding relayed
  relayed-Kept m h = record { at = λ s. h.at s }

module _ ⦃chain_crates : ChainCrates⦄ ⦃wire : WireCrates⦄ {Holds : Blockchain → Type 0}
    (keep : WritesKeep chain_provider Holds) where
  blockchain_set_storage-Kept :
      (a : Address) (k v : H256) → Steps (Kept Holds) (Blockchain.set_storage a k v)
  blockchain_set_storage-Kept a k v = record { at = λ p. record { holds = keep.storage a k v p } }

  blockchain_create_contract-Kept :
      (a : Address) (code : Bytes) → Steps (Kept Holds) (Blockchain.create_contract a code)
  blockchain_create_contract-Kept a code = record {
    at = λ p. record { holds = keep.create a code p };
  }

  set_storage-Kept : (a k v : Outcome Bytes) → Steps (Kept Holds) (Provider.set_storage a k v)
  unfolding Provider.set_storage
  set_storage-Kept a k v = search (steps_rules, relayed-Kept, blockchain_set_storage-Kept) depth 20

  create_contract-Kept :
      (a code : Outcome Bytes) → Steps (Kept Holds) (Provider.create_contract a code)
  unfolding Provider.create_contract
  create_contract-Kept a code =
      search (steps_rules, relayed-Kept, blockchain_create_contract-Kept) depth 20

  update_account-Kept : (a b n : Outcome Bytes) → Steps (Kept Holds) (Provider.update_account a b n)
  unfolding Provider.update_account
  update_account-Kept a b n = search steps_rules

  -- What the writes of the blockchain keep, the writes through a connection keep too.
  remote_writes_keep : WritesKeep (adaptor ⦃client = provider_impl⦄) Holds
  unfolding Adaptor.set_storage Adaptor.update_account Adaptor.create_contract
  remote_writes_keep = record {
    storage = λ a k v p h. ((set_storage-Kept (ok a) (ok k) (ok v)).at p).holds h;
    update = λ a balance nonce p h. ((update_account-Kept (ok a) _ _).at p).holds h;
    create = λ a code p h. ((create_contract-Kept (ok a) (ok code)).at p).holds h;
  }

module _ (Code Loaded M : Type 0) (connection : Connection) ⦃chain_crates : ChainCrates⦄
    ⦃wire : WireCrates⦄ ⦃crates : Crates⦄ ⦃wasmi : Wasmi M⦄ ⦃tools : WasmTools Code⦄
    ⦃interpreter : Interpreter Code Loaded M⦄ where
  run_task-Extends :
      (tx : Transaction) → Steps Extends (run_task Code Loaded M ⦃client = provider_impl⦄ tx)
  unfolding run_task
  run_task-Extends tx = record {
    at = λ s.
        let kept =
          execute-keeps Code Loaded M ⦃api = adaptor ⦃client = provider_impl⦄⦄
            (remote_writes_keep (writes_keep_records s.blocks s.transactions)) tx s
            (record { blocks = refl; transactions = refl }) in
        Extends-same_blocks s _ kept.blocks;
  }

  respond-Extends :
      (o : Outcome Transaction) → Steps Extends (respond Code Loaded M ⦃client = provider_impl⦄ o)
  unfolding respond
  respond-Extends (ok tx) = record { at = λ s. (run_task-Extends tx).at s }
  respond-Extends (err e) = record { at = extends.same }
  respond-Extends panicked = record { at = extends.same }

  serve-Extends :
      (reader : TransactionReader)
      → Steps Extends (serve Code Loaded M ⦃client = provider_impl⦄ reader)
  unfolding serve
  serve-Extends reader = respond-Extends _

  submit-Extends : (tx : Transaction) → Steps Extends (submit Code Loaded M connection tx)
  unfolding submit
  submit-Extends tx = search (steps_rules, serve-Extends)

  record_transaction-Extends :
      (alias : Bytes) (tx : Transaction) (ret : ResultData) (now : ℕ)
      → Steps Extends (record_transaction alias tx ret now)
  unfolding record_transaction
  record_transaction-Extends alias tx ret now =
      search (steps_rules, inc_nonce-Extends, commit-Extends, add_transactions-Extends) depth 20

  session-Extends :
      (code : Bytes) (clock : ℕ → ℕ) → Steps Extends (session Code Loaded M connection code clock)
  unfolding session
  session-Extends code clock =
      search (steps_rules, commit-Extends, submit-Extends, record_transaction-Extends) depth 60

  -- Whatever the outcome of a session over a connection, no block is taken away or changed, and a
  -- chain is left where it started with one.
  pub remote_session-IsChain :
      (code : Bytes) (clock : ℕ → ℕ) (bc : Blockchain)
      → IsChain bc
      → let bc' = (session Code Loaded M connection code clock bc).1 in
        IsChain bc' × ((more : List Block) × (bc'.blocks ≡ bc.blocks ++ more))
  remote_session-IsChain code clock bc h =
      let step = (session-Extends code clock).at bc in (step.chain h, (step.more, step.blocks))
