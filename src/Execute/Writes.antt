-- ===== src/Execute/Writes.antt =====
-- When durian/src/execute.rs writes to the blockchain.
use durian.Base.{ℕ, ◌≡◌, ◌≢◌, refl, Bool, [], ◌∷◌, arith, Bytes, inl, inr}
use durian.Error.{Error, WasmiError}
use durian.Exec.{Outcome, ok, err, panicked, on_field, ◌>>=◌}
use durian.Exec.Steps.{Steps}
use durian.HashMap.{HashMap}
use durian.Types.{Address, H256, ActionParams}
use durian.Crates.{Crates, Wasmi}
use durian.Provider.{Provider}
use durian.State
use durian.State.{AccountInfo, State, new_state}
use durian.State.ReadOnly.{init_code-SameProvider}
use durian.Env.{ImportResolver}
use durian.Transaction.{Transaction, Action}
use durian.Parser.{WasmTools}
use durian.Runtime.{Runtime, new_runtime, on_state}
use durian.Runtime.Storage.{init_code, update_state}
use durian.Runtime.Guard.{HostStep, host_step, host_rules}
use durian.Interpreter.{Interpreter, Instance, InvokeResult, run}
use durian.Interpreter.Confined.{run-HostStep}
use durian.Execute.{
  ResultData, start_result, run_contract, install, commit, settle, run_and_settle, in_runtime,
  run_with, run_code, execute,
}

-- A provider whose writes never return an error.
pub record WritesSucceed {P : Type 0} (api : Provider P) : Type 0 where
  pub storage : (a : Address) (k v : H256) (p : P) (e : Error) → (api.set_storage a k v p).0 ≢ err e
  pub update :
      (a : Address) (bal nonce : ℕ) (p : P) (e : Error)
      → (api.update_account a bal nonce p).0 ≢ err e
  pub create :
      (a : Address) (code : Bytes) (p : P) (e : Error) → (api.create_contract a code p).0 ≢ err e

module _ {P M : Type 0} ⦃api : Provider P⦄ ⦃crates : Crates⦄ ⦃wasmi : Wasmi M⦄ where
  run-Steps : (g : _) → Steps (HostStep {P = P} {M = M}) (run g)
  run-Steps g = record { at = run-HostStep g }

  start_result-HostStep : (r : InvokeResult) → Steps (HostStep {P = P} {M = M}) (start_result r)
  unfolding start_result
  start_result-HostStep (inl (WasmiError.trap k)) = search host_rules
  start_result-HostStep (inr v) = search host_rules
  start_result-HostStep _ = search host_rules

  pub run_contract-HostStep :
      (i : Instance M) (n : ℕ) → Steps (HostStep {P = P} {M = M}) (run_contract i n)
  unfolding run_contract
  run_contract-HostStep i n = search (host_rules, run-Steps, start_result-HostStep) depth 20

module _ {P : Type 0} ⦃api : Provider P⦄ (fine : WritesSucceed api) where
  update_storage-ne-err :
      (a : Address) (m : HashMap H256 (H256 × Bool)) (p : P) (e : Error)
      → (State.update_storage a m p).0 ≢ err e
  unfolding State.update_storage ◌>>=◌
  update_storage-ne-err a [] p e = cc
  update_storage-ne-err a ((k, (v, m)) ∷ r) p e =
      grind (arith, fine.storage a k v p, update_storage-ne-err a r)

  update_account-ne-err :
      (a : Address) (acc : AccountInfo) (p : P) (e : Error)
      → (State.update_account a acc p).0 ≢ err e
  unfolding State.update_account ◌>>=◌
  update_account-ne-err a acc p e =
      ground (arith, fine.update a acc.balance acc.nonce p e, fine.create a acc.code p e)

  update_accounts-ne-err :
      (m : HashMap Address (AccountInfo × Bool)) (p : P) (e : Error)
      → (State.update_accounts m p).0 ≢ err e
  unfolding State.update_accounts ◌>>=◌
  update_accounts-ne-err [] p e = cc
  update_accounts-ne-err ((a, (acc, m)) ∷ r) p e = grind (
    arith,
    update_account-ne-err a acc p,
    update_storage-ne-err a acc.storage,
    update_accounts-ne-err r,
  )

-- Outcomes after which nothing may have been written: an error, and a result with no data.
abbrev pub WritesNothing : Outcome ResultData → Type 0
WritesNothing (ok d) = d.data_bytes ≡ []
WritesNothing (err e) = Unit
WritesNothing panicked = ⊥

module _ {P M : Type 0} ⦃api : Provider P⦄ ⦃crates : Crates⦄ ⦃wasmi : Wasmi M⦄ where
  pub install-HostStep :
      (action : Action) (params : ActionParams) (b : Bytes)
      → Steps (HostStep {P = P} {M = M}) (install action params b)
  unfolding init_code
  install-HostStep action params b = search (host_rules, init_code-SameProvider)

  update_state-ne-err :
      WritesSucceed api → (s : Runtime P M) (e : Error) → (update_state s).0 ≢ err e
  unfolding update_state State.update_state on_state on_field ◌>>=◌
  update_state-ne-err fine s e = update_accounts-ne-err fine s.state.accounts s.state.provider e

  provider-install :
      (action : Action) (params : ActionParams) (b : Bytes) (s : Runtime P M)
      → (install action params b s).1.state.provider ≡ s.state.provider
  provider-install action params b s = ((install-HostStep action params b).at s).provider

  commit-WritesNothing :
      WritesSucceed api
      → (action : Action) (params : ActionParams) (left : ℕ) (result : Bytes) (s : Runtime P M)
      → WritesNothing (commit action params left result s).0
      → (commit action params left result s).1.state.provider ≡ s.state.provider
  unfolding commit ◌>>=◌
  commit-WritesNothing fine action params left [] s h = refl
  commit-WritesNothing fine action params left (b ∷ r) s h =
      grind (arith, update_state-ne-err fine, provider-install)

  settle-WritesNothing :
      WritesSucceed api
      → (action : Action) (params : ActionParams) (s : Runtime P M)
      → WritesNothing (settle action params s).0
      → (settle action params s).1.state.provider ≡ s.state.provider
  unfolding settle ◌>>=◌
  settle-WritesNothing fine action params s h = grind (arith, commit-WritesNothing fine)

  provider-run_contract :
      (i : Instance M) (n : ℕ) (s : Runtime P M)
      → (run_contract i n s).1.state.provider ≡ s.state.provider
  provider-run_contract i n s = ((run_contract-HostStep i n).at s).provider

  run_and_settle-WritesNothing :
      WritesSucceed api
      → (action : Action) (params : ActionParams) (n : ℕ) (i : Instance M) (s : Runtime P M)
      → WritesNothing (run_and_settle action params n i s).0
      → (run_and_settle action params n i s).1.state.provider ≡ s.state.provider
  unfolding run_and_settle ◌>>=◌
  run_and_settle-WritesNothing fine action params n i s h =
      grind (arith, settle-WritesNothing fine, provider-run_contract)

  run_with-WritesNothing :
      WritesSucceed api
      → (action : Action) (params : ActionParams) (gas : ℕ) (loaded : Instance M × ImportResolver M)
        (p : P)
      → WritesNothing (run_with action params gas loaded p).0
      → (run_with action params gas loaded p).1 ≡ p
  unfolding run_with in_runtime ◌>>=◌ new_runtime new_state
  run_with-WritesNothing fine action params gas (i, resolver) p h =
      grind (arith, run_and_settle-WritesNothing fine)

module _ (Code Loaded M : Type 0) {P : Type 0} ⦃api : Provider P⦄ ⦃crates : Crates⦄
    ⦃wasmi : Wasmi M⦄ ⦃tools : WasmTools Code⦄ ⦃interpreter : Interpreter Code Loaded M⦄ where
  execute-WritesNothing :
      WritesSucceed api
      → (transaction : Transaction) (p : P) → WritesNothing (execute Code Loaded M transaction p).0
      → (execute Code Loaded M transaction p).1 ≡ p
  unfolding execute run_code ◌>>=◌
  execute-WritesNothing fine transaction p h = grind (arith, run_with-WritesNothing fine)

  -- With a provider whose own writes return no error, a transaction that ends in an error has
  -- changed nothing on the blockchain.
  pub execute-error_keeps :
      WritesSucceed api
      → (transaction : Transaction) (p : P) {e : Error}
      → (execute Code Loaded M transaction p).0 ≡ err e
      → (execute Code Loaded M transaction p).1 ≡ p
  execute-error_keeps fine transaction p h = execute-WritesNothing fine transaction p (rw h tt)

  -- With such a provider, a transaction that ends well but whose contract returned no data has
  -- changed nothing either, whatever the contract wrote to its storage.
  pub execute-empty_keeps :
      WritesSucceed api
      → (transaction : Transaction) (p : P) {d : ResultData}
      → (execute Code Loaded M transaction p).0 ≡ ok d
      → d.data_bytes ≡ []
      → (execute Code Loaded M transaction p).1 ≡ p
  execute-empty_keeps fine transaction p h empty =
      execute-WritesNothing fine transaction p (rw h empty)
