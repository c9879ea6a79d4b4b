-- ===== src/Web3/Service.antt =====
-- examples/web3/src/impls/transaction.rs: the methods of the service. They share one blockchain
-- behind a mutex of the standard library, which a panic of its holder poisons: `lock().unwrap()`
-- panics from then on.
use durian.Base.{ℕ, Bool, true, false, List, [], ◌∷◌, Bytes, codes, if◌then◌else◌}
use durian.Exec.{Outcome, ok, panicked, Exec, unwrap_option, unwrapped, query, lift, pure, ◌>>=◌}
use durian.Types.{Address, H256}
use durian.Crates.{Crates, Wasmi}
use durian.Parser.{WasmTools}
use durian.Interpreter.{Interpreter}
use durian.Transaction.{make_call}
use durian.Execute.{execute}
use durian.Blockchain
use durian.Blockchain.{Blockchain, ChainCrates, address_from_alias, chain_provider}
use durian.Web3.Request.{TransactionRequest, CallRequest}
use durian.Web3.Contract.{TxReceipt, create, transaction_recipit}

pub record Mutex (S : Type 0) : Type 0 where
  pub poisoned : Bool
  pub contents : S

abbrev has_panicked : {A : Type 0} → Outcome A → Bool
has_panicked panicked = true
has_panicked _ = false

module _ {S A : Type 0} where
  -- A method whose first line is `self.bc.lock().unwrap()`.
  unfoldable pub locked : Exec S A → Exec (Mutex S) A
  locked m mutex =
      let (r, s) = m mutex.contents in
      if mutex.poisoned
      then (panicked, mutex)
      else (r, record { poisoned = has_panicked r; contents = s })

-- The requests of the trait `TransactionRPC`, without their block numbers, which no method reads.
pub data Call : Type 0 where
  gas_price : Call
  send_transaction : TransactionRequest → Call
  transaction_receipt : H256 → Call
  code_at : Address → Call
  call : CallRequest → Call

pub data Answer : Type 0 where
  number : ℕ → Answer
  hash : H256 → Answer
  receipt : TxReceipt → Answer
  bytes : Bytes → Answer

module _ (Code Loaded M : Type 0) (peek_size : Bytes → ℕ) ⦃chain_crates : ChainCrates⦄
    ⦃crates : Crates⦄ ⦃wasmi : Wasmi M⦄ ⦃tools : WasmTools Code⦄
    ⦃interpreter : Interpreter Code Loaded M⦄ where
  unfoldable pub call_contract : CallRequest → Exec Blockchain Bytes
  call_contract request = do
    contract_address ← lift (unwrap_option request.to)
    params ← lift (unwrap_option request.data_bytes)
    sender ← query (address_from_alias (codes "naga"))
    ret3 ← unwrapped (execute Code Loaded M (make_call sender contract_address 0 1000000 0 params))
    pure ret3.data_bytes

  -- What a request does to the blockchain, with the times of the blocks that it commits.
  unfoldable pub handle : Call → (ℕ → ℕ) → Exec Blockchain Answer
  handle Call.gas_price clock = pure (Answer.number 0)
  handle (Call.send_transaction request) clock = do
    h ← create Code Loaded M peek_size request clock
    pure (Answer.hash h)
  handle (Call.transaction_receipt params) clock = do
    r ← query (transaction_recipit params)
    pure (Answer.receipt r)
  handle (Call.code_at address) clock = do
    code ← query (Blockchain.code_at address)
    pure (Answer.bytes code)
  handle (Call.call request) clock = do
    data_bytes ← call_contract request
    pure (Answer.bytes data_bytes)

  -- `gas_price` takes no lock.
  unfoldable pub answer : Call → (ℕ → ℕ) → Exec (Mutex Blockchain) Answer
  answer Call.gas_price clock mutex = (ok (Answer.number 0), mutex)
  answer request clock mutex = locked (handle request clock) mutex

  -- Requests one after another.
  unfoldable pub serve_all : List (Call × (ℕ → ℕ)) → Mutex Blockchain → Mutex Blockchain
  serve_all [] mutex = mutex
  serve_all ((request, clock) ∷ rest) mutex = serve_all rest (answer request clock mutex).1
