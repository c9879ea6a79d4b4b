-- ===== src/Execute/Preserved.antt =====
-- What holds of the blockchain through a whole transaction (durian/src/execute.rs): whatever the
-- three writes of its `Provider` preserve.
use durian.Base.{ℕ, Bool, [], ◌∷◌, Bytes}
use durian.Exec.{Exec, ◌>>=◌, on_field}
use durian.Exec.Steps.{Steps, IsPreorder, Steps-if, Steps-bind, steps_rules}
use mathlib.Core.Path.{subst, sym}
use durian.HashMap.{HashMap}
use durian.Types.{Address, H256, ActionParams}
use durian.Crates.{Crates, Wasmi}
use durian.Parser.{WasmTools}
use durian.Provider.{Provider}
use durian.State
use durian.State.{AccountInfo, new_state}
use durian.Env.{ImportResolver}
use durian.Transaction.{Transaction, Action}
use durian.Runtime.{Runtime, on_state, new_runtime}
use durian.Runtime.Storage.{update_state}
use durian.Runtime.Guard.{HostStep}
use durian.Interpreter.{Interpreter, Instance}
use durian.Execute.Writes.{run_contract-HostStep, install-HostStep}
use durian.Execute.{
  run_contract, install, commit, settle, run_and_settle, in_runtime, run_with, run_code, execute,
}

pub record WritesKeep {P : Type 0} (api : Provider P) (Holds : P → Type 0) : Type 0 where
  pub storage : (a : Address) (k v : H256) (p : P) → Holds p → Holds (api.set_storage a k v p).1
  pub update :
      (a : Address) (balance nonce : ℕ) (p : P)
      → Holds p
      → Holds (api.update_account a balance nonce p).1
  pub create :
      (a : Address) (code : Bytes) (p : P) → Holds p → Holds (api.create_contract a code p).1

-- From one provider to the next, what held still holds.
pub record Kept {P : Type 0} (Holds : P → Type 0) (p q : P) : Type 0 where
  pub holds : Holds p → Holds q

record KeptUnder {P : Type 0} (M : Type 0) (Holds : P → Type 0) (s t : Runtime P M) : Type 0 where
  pub holds : Holds s.state.provider → Holds t.state.provider

module _ {P : Type 0} {Holds : P → Type 0} where
  instance pub kept : IsPreorder (Kept Holds)
  kept = record {
    same = λ s. record { holds = λ h. h };
    chain = λ s t u f g. record { holds = λ h. g.holds (f.holds h) };
  }

module _ {P M : Type 0} {Holds : P → Type 0} where
  instance kept_under : IsPreorder (KeptUnder M Holds)
  kept_under = record {
    same = λ s. record { holds = λ h. h };
    chain = λ s t u f g. record { holds = λ h. g.holds (f.holds h) };
  }

module _ {P : Type 0} ⦃api : Provider P⦄ {Holds : P → Type 0} (keep : WritesKeep api Holds) where
  set_storage-Kept : (a : Address) (k v : H256) → Steps (Kept Holds) (api.set_storage a k v)
  set_storage-Kept a k v = record { at = λ p. record { holds = keep.storage a k v p } }

  api_update_account-Kept :
      (a : Address) (balance nonce : ℕ) → Steps (Kept Holds) (api.update_account a balance nonce)
  api_update_account-Kept a balance nonce = record {
    at = λ p. record { holds = keep.update a balance nonce p };
  }

  create_contract-Kept :
      (a : Address) (code : Bytes) → Steps (Kept Holds) (api.create_contract a code)
  create_contract-Kept a code = record { at = λ p. record { holds = keep.create a code p } }

  update_storage-Kept :
      (a : Address) (m : HashMap H256 (H256 × Bool)) → Steps (Kept Holds) (State.update_storage a m)
  unfolding State.update_storage
  update_storage-Kept a [] = search steps_rules
  update_storage-Kept a ((k, (v, modified)) ∷ r) =
      Steps-bind _ _ (Steps-if modified _ _ (set_storage-Kept a k v) (search steps_rules))
        (λ u. update_storage-Kept a r)

  update_account-Kept :
      (a : Address) (info : AccountInfo) → Steps (Kept Holds) (State.update_account a info)
  unfolding State.update_account
  update_account-Kept a info = search (steps_rules, api_update_account-Kept, create_contract-Kept)

  update_accounts-Kept :
      (m : HashMap Address (AccountInfo × Bool)) → Steps (Kept Holds) (State.update_accounts m)
  unfolding State.update_accounts
  update_accounts-Kept [] = search steps_rules
  update_accounts-Kept ((a, (info, modified)) ∷ r) =
      Steps-bind _ _ (Steps-if modified _ _ (update_account-Kept a info) (search steps_rules))
        λ u. Steps-bind _ _ (update_storage-Kept a info.storage) (λ v. update_accounts-Kept r)

module _ {P M : Type 0} ⦃api : Provider P⦄ ⦃crates : Crates⦄ ⦃wasmi : Wasmi M⦄ {Holds : P → Type 0}
    (keep : WritesKeep api Holds) where
  update_state-KeptUnder : Steps (KeptUnder M Holds) update_state
  unfolding update_state State.update_state on_state on_field ◌>>=◌
  update_state-KeptUnder = record {
    at = λ s. record {
      holds = ((update_accounts-Kept keep s.state.accounts).at s.state.provider).holds;
    };
  }

  kept_by_host : (s t : Runtime P M) → HostStep s t → KeptUnder M Holds s t
  kept_by_host s t step = record { holds = λ h. subst Holds (sym step.provider) h }

  install-KeptUnder :
      (action : Action) (params : ActionParams) (b : Bytes)
      → Steps (KeptUnder M Holds) (install action params b)
  install-KeptUnder action params b = record {
    at = λ s. kept_by_host s _ ((install-HostStep action params b).at s);
  }

  run_contract-KeptUnder : (i : Instance M) (n : ℕ) → Steps (KeptUnder M Holds) (run_contract i n)
  run_contract-KeptUnder i n = record {
    at = λ s. kept_by_host s _ ((run_contract-HostStep i n).at s);
  }

  commit-KeptUnder :
      (action : Action) (params : ActionParams) (left : ℕ) (result : Bytes)
      → Steps (KeptUnder M Holds) (commit action params left result)
  unfolding commit
  commit-KeptUnder action params left [] = search steps_rules
  commit-KeptUnder action params left (x ∷ r) =
      search (steps_rules, update_state-KeptUnder, install-KeptUnder)

  run_and_settle-KeptUnder :
      (action : Action) (params : ActionParams) (n : ℕ) (i : Instance M)
      → Steps (KeptUnder M Holds) (run_and_settle action params n i)
  unfolding run_and_settle settle
  run_and_settle-KeptUnder action params n i =
      search (steps_rules, run_contract-KeptUnder, commit-KeptUnder) depth 20

  in_runtime-Kept :
      {A : Type 0} (params : ActionParams) (memory : M) (limit : ℕ) (m : Exec (Runtime P M) A)
      → Steps (KeptUnder M Holds) m
      → Steps (Kept Holds) (in_runtime params memory limit m)
  unfolding in_runtime new_runtime new_state
  in_runtime-Kept params memory limit m h = record { at = λ p. record { holds = (h.at _).holds } }

  run_with-Kept :
      (action : Action) (params : ActionParams) (gas : ℕ) (loaded : Instance M × ImportResolver M)
      → Steps (Kept Holds) (run_with action params gas loaded)
  unfolding run_with
  run_with-Kept action params gas (i, resolver) =
      search (steps_rules, in_runtime-Kept, run_and_settle-KeptUnder) depth 20

module _ (Code Loaded M : Type 0) {P : Type 0} ⦃api : Provider P⦄ ⦃crates : Crates⦄
    ⦃wasmi : Wasmi M⦄ ⦃tools : WasmTools Code⦄ ⦃interpreter : Interpreter Code Loaded M⦄
    {Holds : P → Type 0} (keep : WritesKeep api Holds) where
  execute-Kept :
      (transaction : Transaction) → Steps (Kept Holds) (execute Code Loaded M transaction)
  unfolding execute run_code
  execute-Kept transaction = search (steps_rules, run_with-Kept) depth 20

  -- Whatever the writes of a provider preserve holds of it after any transaction, however that ends.
  pub execute-keeps :
      (transaction : Transaction) (p : P) → Holds p → Holds (execute Code Loaded M transaction p).1
  execute-keeps transaction p h = ((execute-Kept transaction).at p).holds h
