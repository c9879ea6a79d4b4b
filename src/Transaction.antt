-- ===== src/Transaction.antt =====
-- durian/src/transaction.rs: transactions and the ways to make them.
pub mod Embedded
use durian.Base.{ℕ, Bytes, take, drop, length, leb, if◌then◌else◌}
use durian.Exec.{Outcome, ok, panicked}
use durian.Types.{Address, H256}

pub data Action : Type 0 where
  create : Bytes → H256 → Action
  call : Address → Action

pub record Transaction : Type 0 where
  pub sender : Address
  pub value : ℕ
  pub gas : ℕ
  pub gas_price : ℕ
  pub action : Action
  pub args : Bytes

-- `Transaction::make_create_embedded_code`, with parity-wasm's `peek_size` as an argument. Slicing
-- past the end panics.
unfoldable pub make_create_embedded_code :
    (Bytes → ℕ) → Address → ℕ → ℕ → ℕ → Bytes → H256 → Outcome Transaction
make_create_embedded_code peek_size sender value gas gas_price code_params salt =
    let module_size = peek_size code_params in
    if leb module_size (length code_params)
    then ok (record {
      sender = sender;
      value = value;
      gas = gas;
      gas_price = gas_price;
      action = Action.create (take module_size code_params) salt;
      args = drop module_size code_params;
    })
    else panicked

unfoldable pub make_create : Address → ℕ → ℕ → ℕ → Bytes → Bytes → H256 → Transaction
make_create sender value gas gas_price code args salt = record {
  sender = sender;
  value = value;
  gas = gas;
  gas_price = gas_price;
  action = Action.create code salt;
  args = args;
}

unfoldable pub make_call : Address → Address → ℕ → ℕ → ℕ → Bytes → Transaction
make_call sender contract value gas gas_price args = record {
  sender = sender;
  value = value;
  gas = gas;
  gas_price = gas_price;
  action = Action.call contract;
  args = args;
}
