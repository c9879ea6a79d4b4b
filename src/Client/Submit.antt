-- ===== src/Client/Submit.antt =====
-- A transaction of examples/durian-client/src/main.rs on its way through
-- durian-server/src/executor_impl.rs and back.
use durian.Base.{◌≡◌, refl, inl, inr}
use durian.Error.{Error}
use durian.Exec.{Outcome, ok, err, panicked, ◌>>=◌}
use durian.Exec.Bind.{Outcome-cases}
use durian.Crates.{Crates, IsDocumented, Wasmi}
use durian.Parser.{WasmTools}
use durian.Interpreter.{Interpreter}
use durian.Transaction.{Transaction}
use durian.Execute.{ResultData}
use durian.Blockchain.{Blockchain}
use durian.Wire.{WireCrates, IsWireDocumented, Connection, IsReliable}
use durian.Server.Executor.{run_task, answer, send_result}
use durian.Server.Exchange.{IsTransaction, read_transaction-build_tx, read_result-serve, serve-ok}
use durian.Client.Messages.{build_tx}
use durian.Client.Provider.{provider_impl}
use durian.Client.Session.{submit}

module _ ⦃wire : WireCrates⦄ where
  -- The task's outcome as the client gets it.
  abbrev pub received : Outcome ResultData → Outcome ResultData
  received (ok d) = ok d
  received (err e) = err (Error.other wire.channel_closed)
  received panicked = err (Error.other wire.channel_closed)

module _ (Code Loaded M : Type 0) (connection : Connection) ⦃wire : WireCrates⦄ ⦃crates : Crates⦄
    ⦃wasmi : Wasmi M⦄ ⦃tools : WasmTools Code⦄ ⦃interpreter : Interpreter Code Loaded M⦄ where
  pub submit-run_task :
      IsDocumented crates
      → IsWireDocumented wire
      → IsReliable connection
      → (tx : Transaction) (bc : Blockchain) → IsTransaction tx
      → submit Code Loaded M connection tx bc ≡ (
        received (run_task Code Loaded M ⦃client = provider_impl⦄ tx bc).0,
        (run_task Code Loaded M ⦃client = provider_impl⦄ tx bc).1,
      )
  unfolding submit answer ◌>>=◌
  submit-run_task doc wire_doc reliable tx bc h =
      let r = connection.deliver (build_tx tx) in
      let carried = reliable.carries (build_tx tx) in
      let served =
        serve-ok Code Loaded M ⦃client = provider_impl⦄ doc wire_doc tx r bc
          (read_transaction-build_tx wire_doc tx r h carried) in
      elim (Outcome-cases (run_task Code Loaded M ⦃client = provider_impl⦄ tx bc).0) [
        | inl (d, e) ↦
            let (answered, read) =
              read_result-serve Code Loaded M ⦃client = provider_impl⦄ doc wire_doc tx r
                (connection.deliver_result (send_result d)) bc h carried e
                (reliable.carries_result (send_result d)) in
            rw (answered, read, e) refl
        | inr (inl (er, e)) ↦ rw (served, e) refl
        | inr (inr e) ↦ rw (served, e) refl
      ]
