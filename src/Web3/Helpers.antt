-- ===== src/Web3/Helpers.antt =====
-- examples/web3/src/helpers/request.rs: requests as the service keeps them, with the conversions
-- between them and those of RPC (types/transaction_request.rs and types/call_request.rs).
use durian.Base.{ℕ, Bool, Option, some, Bytes}
use durian.Types.{Address}
use durian.Web3.Request

pub record TransactionRequest : Type 0 where
  pub from : Option Address
  pub to : Option Address
  pub gas_price : Option ℕ
  pub gas : Option ℕ
  pub value : Option ℕ
  pub data_bytes : Option Bytes
  pub nonce : Option ℕ

pub record FilledTransactionRequest : Type 0 where
  pub from : Address
  pub used_default_from : Bool
  pub to : Option Address
  pub gas_price : ℕ
  pub gas : ℕ
  pub value : ℕ
  pub data_bytes : Bytes
  pub nonce : Option ℕ

pub record CallRequest : Type 0 where
  pub from : Option Address
  pub to : Option Address
  pub gas_price : Option ℕ
  pub gas : Option ℕ
  pub value : Option ℕ
  pub data_bytes : Option Bytes
  pub nonce : Option ℕ

-- `From<FilledTransactionRequest> for TransactionRequest`
abbrev pub unfilled : FilledTransactionRequest → TransactionRequest
unfilled r = record {
  from = some r.from;
  to = r.to;
  gas_price = some r.gas_price;
  gas = some r.gas;
  value = some r.value;
  data_bytes = some r.data_bytes;
  nonce = r.nonce;
}

-- `From<helpers::TransactionRequest> for TransactionRequest`
abbrev pub from_helper : TransactionRequest → Request.TransactionRequest
from_helper r = record {
  from = r.from;
  to = r.to;
  gas_price = r.gas_price;
  gas = r.gas;
  value = r.value;
  data_bytes = r.data_bytes;
  nonce = r.nonce;
}

-- `From<helpers::FilledTransactionRequest> for TransactionRequest`
abbrev pub from_filled : FilledTransactionRequest → Request.TransactionRequest
from_filled r = record {
  from = some r.from;
  to = r.to;
  gas_price = some r.gas_price;
  gas = some r.gas;
  value = some r.value;
  data_bytes = some r.data_bytes;
  nonce = r.nonce;
}

-- `Into<helpers::TransactionRequest> for TransactionRequest`
abbrev pub into_helper : Request.TransactionRequest → TransactionRequest
into_helper r = record {
  from = r.from;
  to = r.to;
  gas_price = r.gas_price;
  gas = r.gas;
  value = r.value;
  data_bytes = r.data_bytes;
  nonce = r.nonce;
}

-- `Into<Request> for CallRequest`
abbrev pub into_request : Request.CallRequest → CallRequest
into_request r = record {
  from = r.from;
  to = r.to;
  gas_price = r.gas_price;
  gas = r.gas;
  value = r.value;
  data_bytes = r.data_bytes;
  nonce = r.nonce;
}
