-- ===== src/Server/Exchange.antt =====
-- A transaction's way from the client's examples/durian-client/src/main.rs to
-- durian-server/src/executor_impl.rs and back.
use durian.Base.{◌<◌, ◌^◌, ◌≡◌, refl, ◌∙◌, ap, [], arith, length}
use durian.Error.{Error}
use durian.Exec.{Outcome, ok, err}
use durian.Crates.{Crates, IsDocumented, Wasmi}
use durian.Parser.{WasmTools}
use durian.Interpreter.{Interpreter}
use durian.Transaction.{Transaction, Action}
use durian.Utils.{contract_address, keccak}
use durian.Execute.{ResultData}
use durian.Execute.Writes.{WritesSucceed, execute-error_keeps}
use durian.Execute.Gas.{execute-gas_left, contract_of}
use durian.Wire.{
  WireCrates, IsWireDocumented, TransactionReader, ResultReader, Carries, CarriesResult, delivered,
  ProviderClient,
}
use durian.Server.Adaptor.{adaptor}
use durian.Server.Executor.{
  read_action, read_transaction, send_result, answer, run_task, respond, serve,
}
use durian.Client.Messages.{build_action, build_tx, read_result}

-- The lengths and ranges that the types `H160`, `H256` and `U256` give.
abbrev pub IsAction : Action → Type 0
IsAction (Action.create code salt) = length salt ≡ 32
IsAction (Action.call address) = length address ≡ 20

pub record IsTransaction (tx : Transaction) : Type 0 where
  pub sender : length tx.sender ≡ 20
  pub value : tx.value < 2 ^ 256
  pub gas : tx.gas < 2 ^ 256
  pub gas_price : tx.gas_price < 2 ^ 256
  pub action : IsAction tx.action

module _ ⦃crates : WireCrates⦄ (doc : IsWireDocumented crates) where
  read_action-build_action :
      (action : Action)
      → IsAction action
      → read_action (delivered (build_action action)) ≡ ok action
  unfolding read_action
  read_action-build_action (Action.create code salt) h = rw (doc.h256_exact salt h) refl
  read_action-build_action (Action.call address) h = rw (doc.address_exact address h) refl

  -- A well-formed transaction arrives as it was sent, where the reader gives what was set.
  pub read_transaction-build_tx :
      (tx : Transaction) (r : TransactionReader)
      → IsTransaction tx
      → Carries r (build_tx tx)
      → read_transaction r ≡ ok tx
  unfolding read_transaction build_tx
  read_transaction-build_tx tx r h c = ground (
    arith,
    c.sender,
    c.value,
    c.gas,
    c.gas_price,
    c.action,
    c.args,
    doc.address_exact tx.sender h.sender,
    doc.little_endian_inverse tx.value h.value,
    doc.little_endian_inverse tx.gas h.gas,
    doc.little_endian_inverse tx.gas_price h.gas_price,
    read_action-build_action tx.action h.action,
  )

  -- A result arrives as it was sent, but for the logs.
  read_result-send_result :
      (d : ResultData) (r : ResultReader)
      → d.gas_left < 2 ^ 256
      → length d.contract ≡ 20
      → d.logs ≡ []
      → CarriesResult r (send_result d)
      → read_result r ≡ ok d
  unfolding read_result send_result
  read_result-send_result d r hg hc hl c = ground (
    arith,
    c.gas_left,
    c.data_bytes,
    c.contract,
    doc.little_endian_inverse d.gas_left hg,
    doc.address_exact d.contract hc,
  )

pub length-contract_of :
    ⦃crates : Crates⦄
    → IsDocumented crates
    → (tx : Transaction) (action : Action) → IsAction action
    → length (contract_of tx action) ≡ 20
unfolding contract_address keccak
length-contract_of doc tx (Action.create code salt) h = doc.address_length _
length-contract_of doc tx (Action.call address) h = h

module _ (Code Loaded M : Type 0) {S : Type 0} ⦃client : ProviderClient S⦄ ⦃wire : WireCrates⦄
    ⦃crates : Crates⦄ ⦃wasmi : Wasmi M⦄ ⦃tools : WasmTools Code⦄
    ⦃interpreter : Interpreter Code Loaded M⦄ (doc : IsDocumented crates)
    (wire_doc : IsWireDocumented wire) where
  pub serve-ok :
      (tx : Transaction) (r : TransactionReader) (s : S)
      → read_transaction r ≡ ok tx
      → serve Code Loaded M r s
        ≡ (answer (run_task Code Loaded M tx s).0, (run_task Code Loaded M tx s).1)
  unfolding serve
  serve-ok tx r s e = ap (λ (o : Outcome Transaction). respond Code Loaded M o s) e

  -- A well-formed transaction that `execute` ends well over the caller's provider is answered, what
  -- the caller reads is the result of `execute`, and the provider is as `execute` left it.
  pub read_result-serve :
      (tx : Transaction) (r : TransactionReader) (reader : ResultReader) (s : S) {d : ResultData}
      → IsTransaction tx
      → Carries r (build_tx tx)
      → (run_task Code Loaded M tx s).0 ≡ ok d
      → CarriesResult reader (send_result d)
      → (serve Code Loaded M r s ≡ (ok (send_result d), (run_task Code Loaded M tx s).1))
        × (read_result reader ≡ ok d)
  unfolding run_task answer
  read_result-serve tx r reader s {d} h c e cr =
      let (left, at_address, none_logged) =
        execute-gas_left Code Loaded M ⦃api = adaptor⦄ doc tx s e in
      let arrived : read_transaction r ≡ ok tx = read_transaction-build_tx wire_doc tx r h c in
      let sized : length d.contract ≡ 20 =
        rw at_address (length-contract_of doc tx tx.action h.action) in
      let below : d.gas_left < 2 ^ 256 = omega (arith, left, h.gas) in
      (
        serve-ok tx r s arrived ∙ rw e refl,
        read_result-send_result wire_doc d reader below sized none_logged cr,
      )

  -- A well-formed transaction for which `execute` fails is answered by an error, and where the writes
  -- of the provider return no error, nothing has been written.
  pub serve-failed :
      WritesSucceed (adaptor {S = S})
      → (tx : Transaction) (r : TransactionReader) (s : S) {e : Error} → IsTransaction tx
      → Carries r (build_tx tx)
      → (run_task Code Loaded M tx s).0 ≡ err e
      → serve Code Loaded M r s ≡ (err (Error.other wire.channel_closed), s)
  unfolding run_task answer
  serve-failed fine tx r s h c e =
      serve-ok tx r s (read_transaction-build_tx wire_doc tx r h c)
      ∙ rw (e, execute-error_keeps Code Loaded M ⦃api = adaptor⦄ fine tx s e) refl
