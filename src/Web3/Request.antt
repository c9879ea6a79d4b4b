-- ===== src/Web3/Request.antt =====
-- examples/web3/src/types/transaction_request.rs and call_request.rs: requests as they come over RPC.
use durian.Base.{ℕ, Option, Bytes}
use durian.Types.{Address, H256}
use durian.Transaction.{Transaction}

-- `types::TransactionRequest`
pub record TransactionRequest : Type 0 where
  pub from : Option Address
  pub to : Option Address
  pub gas_price : Option ℕ
  pub gas : Option ℕ
  pub value : Option ℕ
  pub data_bytes : Option Bytes
  pub nonce : Option ℕ

-- `types::CallRequest`
pub record CallRequest : Type 0 where
  pub from : Option Address
  pub to : Option Address
  pub gas_price : Option ℕ
  pub gas : Option ℕ
  pub value : Option ℕ
  pub data_bytes : Option Bytes
  pub nonce : Option ℕ

-- The types of a transaction before and after its signature has been checked, which nothing makes.
pub record UnverifiedTransaction : Type 0 where
  pub unsigned : Transaction
  pub v : ℕ
  pub r : ℕ
  pub s : ℕ
  pub hash : H256

pub record SignedTransaction : Type 0 where
  pub transaction : UnverifiedTransaction
  pub sender : Address
  pub public : Option Bytes

-- `Deref for UnverifiedTransaction`
unfoldable pub deref : UnverifiedTransaction → Transaction
deref transaction = transaction.unsigned
