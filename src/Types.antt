-- ===== src/Types.antt =====
-- durian/src/types.rs, address.rs and log_entry.rs: the data that the parts exchange. An `H256` is
-- its 32 bytes and an `H160`, of which `Address` is a synonym, its 20 bytes (`utils.rs` builds an
-- `H256` from its byte array). A `U256` is the number that it stands for, below 2^256.
use durian.Base.{ℕ, Option, List, Bytes, replicate}

abbrev pub Address : Type 0
Address = Bytes

abbrev pub H256 : Type 0
H256 = Bytes

-- `H256::zero()`
abbrev pub zero_hash : H256
zero_hash = replicate 32 0

pub data ActionType : Type 0 where
  create call : ActionType

pub record ActionParams : Type 0 where
  pub code_address : Address
  pub code_hash : Option H256
  pub address : Address
  pub sender : Address
  pub origin : Address
  pub gas : ℕ
  pub gas_price : ℕ
  pub value : ℕ
  pub code : Bytes
  pub code_version : ℕ
  pub args : Bytes
  pub action_type : ActionType

pub record LogEntry : Type 0 where
  pub address : Address
  pub topics : List H256
  pub data_bytes : Bytes
