-- ===== src/Web3/Poison.antt =====
-- The service of examples/web3/src/impls/transaction.rs over a sequence of requests, some of which
-- may panic.
use durian.Base.{
  ℕ, Bool, true, false, none, List, [], ◌∷◌, ◌++◌, ◌≡◌, ◌≢◌, refl, ap, ◌∙◌, arith, Bytes,
  bytes_has_eq,
}
use durian.Exec.{panicked, Exec, ◌>>=◌}
use durian.Exec.Steps.{Steps, steps_rules}
use durian.Types.{H256}
use durian.HashMap.{get}
use durian.Crates.{Crates, Wasmi}
use durian.Parser.{WasmTools}
use durian.Interpreter.{Interpreter}
use durian.Transaction.{Transaction}
use durian.Execute.{ResultData}
use durian.Blockchain.{Block, Blockchain, ChainCrates, get_transaction_details}
use durian.Blockchain.Blocks.{IsChain}
use durian.Blockchain.Records.{
  Extends, extends, commit-Extends, add_transactions-Extends, inc_nonce-Extends, execute-Extends,
}
use durian.Web3.Request.{TransactionRequest, CallRequest}
use durian.Web3.Contract.{record_creation, create, transaction_recipit}
use durian.Web3.Service.{Mutex, locked, Call, Answer, call_contract, handle, answer, serve_all}

module _ (Code Loaded M : Type 0) (peek_size : Bytes → ℕ) ⦃chain_crates : ChainCrates⦄
    ⦃crates : Crates⦄ ⦃wasmi : Wasmi M⦄ ⦃tools : WasmTools Code⦄
    ⦃interpreter : Interpreter Code Loaded M⦄ where
  record_creation-Extends :
      (tx : Transaction) (ret : ResultData) (now : ℕ) → Steps Extends (record_creation tx ret now)
  unfolding record_creation
  record_creation-Extends tx ret now =
      search (steps_rules, commit-Extends, add_transactions-Extends, inc_nonce-Extends) depth 20

  create-Extends :
      (request : TransactionRequest) (clock : ℕ → ℕ)
      → Steps Extends (create Code Loaded M peek_size request clock)
  unfolding create
  create-Extends request clock =
      search (steps_rules, execute-Extends, commit-Extends, record_creation-Extends) depth 40

  call_contract-Extends :
      (request : CallRequest) → Steps Extends (call_contract Code Loaded M peek_size request)
  unfolding call_contract
  call_contract-Extends request = search (steps_rules, execute-Extends) depth 20

  handle-Extends :
      (request : Call) (clock : ℕ → ℕ)
      → Steps Extends (handle Code Loaded M peek_size request clock)
  unfolding handle
  handle-Extends Call.gas_price clock = search steps_rules
  handle-Extends (Call.send_transaction request) clock = search (steps_rules, create-Extends)
  handle-Extends (Call.transaction_receipt params) clock = search steps_rules
  handle-Extends (Call.code_at address) clock = search steps_rules
  handle-Extends (Call.call request) clock = search (steps_rules, call_contract-Extends)

  locked-Extends_by :
      (m : Exec Blockchain Answer) (poisoned : Bool) (bc : Blockchain)
      → Steps Extends m
      → Extends bc (locked m (record { poisoned = poisoned; contents = bc })).1.contents
  unfolding locked
  locked-Extends_by m true bc h = extends.same bc
  locked-Extends_by m false bc h = h.at bc

  locked-Extends :
      (m : Exec Blockchain Answer) (mutex : Mutex Blockchain)
      → Steps Extends m
      → Extends mutex.contents (locked m mutex).1.contents
  locked-Extends m mutex h = locked-Extends_by m mutex.poisoned mutex.contents h

  answer-Extends :
      (request : Call) (clock : ℕ → ℕ) (mutex : Mutex Blockchain)
      → Extends mutex.contents (answer Code Loaded M peek_size request clock mutex).1.contents
  unfolding answer
  answer-Extends Call.gas_price clock mutex = extends.same mutex.contents
  answer-Extends (Call.send_transaction request) clock mutex =
      locked-Extends _ mutex (handle-Extends (Call.send_transaction request) clock)
  answer-Extends (Call.transaction_receipt params) clock mutex =
      locked-Extends _ mutex (handle-Extends (Call.transaction_receipt params) clock)
  answer-Extends (Call.code_at address) clock mutex =
      locked-Extends _ mutex (handle-Extends (Call.code_at address) clock)
  answer-Extends (Call.call request) clock mutex =
      locked-Extends _ mutex (handle-Extends (Call.call request) clock)

  serve_all-Extends :
      (requests : List (Call × (ℕ → ℕ))) (mutex : Mutex Blockchain)
      → Extends mutex.contents (serve_all Code Loaded M peek_size requests mutex).contents
  unfolding serve_all
  serve_all-Extends [] mutex = extends.same mutex.contents
  serve_all-Extends ((request, clock) ∷ rest) mutex =
      extends.chain _ _ _ (answer-Extends request clock mutex)
        (serve_all-Extends rest (answer Code Loaded M peek_size request clock mutex).1)

  -- Whatever requests the service gets, and whichever of them panic, no block is taken away or
  -- changed, and a chain is left where it started with one.
  pub serve_all-IsChain :
      (requests : List (Call × (ℕ → ℕ))) (mutex : Mutex Blockchain)
      → IsChain mutex.contents
      → let bc' = (serve_all Code Loaded M peek_size requests mutex).contents in
        IsChain bc' × ((more : List Block) × (bc'.blocks ≡ mutex.contents.blocks ++ more))
  serve_all-IsChain requests mutex h =
      let step = serve_all-Extends requests mutex in (step.chain h, (step.more, step.blocks))

  answer-poisoned :
      (request : Call) (clock : ℕ → ℕ) (mutex : Mutex Blockchain)
      → mutex.poisoned ≡ true
      → (answer Code Loaded M peek_size request clock mutex).1 ≡ mutex
  unfolding answer locked
  answer-poisoned Call.gas_price clock mutex h = refl
  answer-poisoned (Call.send_transaction request) clock mutex h = rw h refl
  answer-poisoned (Call.transaction_receipt params) clock mutex h = rw h refl
  answer-poisoned (Call.code_at address) clock mutex h = rw h refl
  answer-poisoned (Call.call request) clock mutex h = rw h refl

  serve_all-poisoned :
      (requests : List (Call × (ℕ → ℕ))) (mutex : Mutex Blockchain)
      → mutex.poisoned ≡ true
      → serve_all Code Loaded M peek_size requests mutex ≡ mutex
  unfolding serve_all
  serve_all-poisoned [] mutex h = refl
  serve_all-poisoned ((request, clock) ∷ rest) mutex h =
      rw (answer-poisoned request clock mutex h) (serve_all-poisoned rest mutex h)

  answer-refused :
      (request : Call) (clock : ℕ → ℕ) (mutex : Mutex Blockchain)
      → mutex.poisoned ≡ true
      → request ≢ Call.gas_price
      → (answer Code Loaded M peek_size request clock mutex).0 ≡ panicked
  unfolding answer locked
  answer-refused Call.gas_price clock mutex h other = absurd (other refl)
  answer-refused (Call.send_transaction request) clock mutex h other = rw h refl
  answer-refused (Call.transaction_receipt params) clock mutex h other = rw h refl
  answer-refused (Call.code_at address) clock mutex h other = rw h refl
  answer-refused (Call.call request) clock mutex h other = rw h refl

  unknown_receipt :
      (params : H256) (clock : ℕ → ℕ) (mutex : Mutex Blockchain)
      → get params mutex.contents.transactions ≡ none
      → (answer Code Loaded M peek_size (Call.transaction_receipt params) clock mutex).1
        ≡ record { poisoned = true; contents = mutex.contents }
  unfolding answer locked handle transaction_recipit get_transaction_details ◌>>=◌
  unknown_receipt params clock mutex h = ground arith

  -- Once the receipt of an unknown transaction was asked for, every later request but `gas_price`
  -- panics, whatever came in between, and the blockchain stays as it was.
  pub answer-after_unknown_receipt :
      (params : H256) (clock : ℕ → ℕ) (mutex : Mutex Blockchain) (between : List (Call × (ℕ → ℕ)))
      (request : Call) (later : ℕ → ℕ)
      → get params mutex.contents.transactions ≡ none
      → request ≢ Call.gas_price
      → let mutex' =
          serve_all Code Loaded M peek_size
            ((Call.transaction_receipt params, clock) ∷ between)
            mutex in
        ((answer Code Loaded M peek_size request later mutex').0 ≡ panicked)
        × (mutex'.contents ≡ mutex.contents)
  unfolding serve_all
  answer-after_unknown_receipt params clock mutex between request later unknown other =
      let stuck : Mutex Blockchain = record { poisoned = true; contents = mutex.contents } in
      let after =
        ap (λ m. serve_all Code Loaded M peek_size between m)
          (unknown_receipt params clock mutex unknown)
        ∙ serve_all-poisoned between stuck refl in
      (
        ap (λ m. (answer Code Loaded M peek_size request later m).0) after
            ∙ answer-refused request later stuck refl other,
        ap (λ (m : Mutex Blockchain). m.contents) after,
      )
