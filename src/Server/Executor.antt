-- ===== src/Server/Executor.antt =====
-- durian-server/src/executor_impl.rs: a transaction that arrives is read, executed in a task of its
-- own over the caller's provider, and answered when the task has sent its result. The wait for the
-- task is `Server.Wait`.
use durian.Error.{Error}
use durian.Exec.{Outcome, ok, err, panicked, Exec, and_then}
use durian.Crates.{Crates, Wasmi}
use durian.Parser.{WasmTools}
use durian.Interpreter.{Interpreter}
use durian.Transaction.{Transaction, Action}
use durian.Execute.{ResultData, execute}
use durian.Wire.{WireCrates, ActionReader, TransactionReader, ResultMessage, ProviderClient}
use durian.Server.Adaptor.{adaptor}

module _ ⦃crates : WireCrates⦄ where
  unfoldable pub read_action : ActionReader → Outcome Action
  read_action (ActionReader.create get_code get_salt) = and_then get_code λ code.
      and_then get_salt
        λ salt. and_then (crates.h256_from_slice salt) λ salt'. ok (Action.create code salt')
  read_action (ActionReader.call get_address) =
      and_then get_address λ address.
        and_then (crates.address_from_slice address) λ address'. ok (Action.call address')

  -- `From<transaction::Reader> for Result<Transaction, Error>`
  unfoldable pub read_transaction : TransactionReader → Outcome Transaction
  unfolding read_action
  read_transaction reader =
      and_then (and_then reader.get_sender crates.address_from_slice) λ sender.
        and_then (and_then reader.get_value crates.from_little_endian) λ value.
          and_then (and_then reader.get_gas crates.from_little_endian) λ gas.
            and_then (and_then reader.get_gas_price crates.from_little_endian) λ gas_price.
              and_then reader.get_args λ args.
                and_then (and_then reader.get_action read_action) λ action. ok (record {
                  sender = sender;
                  value = value;
                  gas = gas;
                  gas_price = gas_price;
                  action = action;
                  args = args;
                })

  -- The setters on `get_result_data()`.
  unfoldable pub send_result : ResultData → ResultMessage
  send_result result_data = record {
    gas_left = crates.to_little_endian result_data.gas_left;
    data_bytes = result_data.data_bytes;
    contract = result_data.contract;
  }

  -- What the caller gets for the outcome of the task. `unwrap` in the task panics on an error of
  -- `execute`, which drops the sender, and the receiver then finds the channel closed.
  unfoldable pub answer : Outcome ResultData → Outcome ResultMessage
  unfolding send_result
  answer (ok result_data) = ok (send_result result_data)
  answer (err e) = err (Error.other crates.channel_closed)
  answer panicked = err (Error.other crates.channel_closed)

module _ (Code Loaded M : Type 0) {S : Type 0} ⦃client : ProviderClient S⦄ ⦃wire : WireCrates⦄
    ⦃crates : Crates⦄ ⦃wasmi : Wasmi M⦄ ⦃tools : WasmTools Code⦄
    ⦃interpreter : Interpreter Code Loaded M⦄ where
  -- The task: `execute` over the adaptor.
  unfoldable pub run_task : Transaction → Exec S ResultData
  run_task transaction = execute Code Loaded M ⦃api = adaptor⦄ transaction

  -- The rest of the handler, from the transaction that was read.
  unfoldable pub respond : Outcome Transaction → Exec S ResultMessage
  respond (ok transaction) s = let (r, s') = run_task transaction s in (answer r, s')
  respond (err e) s = (err e, s)
  respond panicked s = (panicked, s)

  -- `executor::Server::execute`
  unfoldable pub serve : TransactionReader → Exec S ResultMessage
  unfolding respond
  serve reader = respond (read_transaction reader)
