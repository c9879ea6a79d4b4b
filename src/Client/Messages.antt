-- ===== src/Client/Messages.antt =====
-- examples/durian-client/src/main.rs: transactions and results as messages.
use durian.Base.{[]}
use durian.Exec.{Outcome, ok, unwrap, and_then}
use durian.Transaction.{Transaction, Action}
use durian.Execute.{ResultData}
use durian.Wire.{WireCrates, ActionMessage, TransactionMessage, ResultReader}

abbrev pub build_action : Action → ActionMessage
build_action (Action.create code salt) = ActionMessage.create code salt
build_action (Action.call address) = ActionMessage.call address

module _ ⦃crates : WireCrates⦄ where
  unfoldable pub build_tx : Transaction → TransactionMessage
  build_tx tx = record {
    sender = tx.sender;
    value = crates.to_little_endian tx.value;
    gas = crates.to_little_endian tx.gas;
    gas_price = crates.to_little_endian tx.gas_price;
    action = build_action tx.action;
    args = tx.args;
  }

  -- `From<execute_results::Reader> for ResultData`: every getter is unwrapped.
  unfoldable pub read_result : ResultReader → Outcome ResultData
  read_result reader =
      and_then (and_then (unwrap reader.get_gas_left) crates.from_little_endian) λ gas_left.
        and_then (unwrap reader.get_data) λ data_bytes.
          and_then (and_then (unwrap reader.get_contract) crates.address_from_slice) λ contract.
            ok (record {
              gas_left = gas_left;
              data_bytes = data_bytes;
              contract = contract;
              logs = [];
            })
