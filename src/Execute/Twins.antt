-- ===== src/Execute/Twins.antt =====
-- A whole transaction (durian/src/execute.rs) over two providers that cannot be told apart.
use durian.Base.{true, ℕ, ◌≡◌, refl, Bool-cases, ltb, ◌-◌, [], ◌∷◌, arith, Bytes, inl, inr, length}
use durian.Error.{WasmiError}
use durian.Exec.{Outcome, ok, lift, query, on_field, ◌>>=◌}
use durian.Exec.Bind.{Outcome-cases}
use durian.Exec.Same.{Same, Same-if_known, Same-pure, Same-query, Same-gets, Same-lift, bind_agrees}
use durian.Types.{ActionParams}
use durian.Crates.{Crates, Wasmi, FillsBuffers}
use durian.WasmCost.{WasmCosts}
use durian.Parser.{WasmTools}
use durian.Provider.{Provider}
use durian.Provider.Twins.{AreTwins}
use durian.State.Sized.{new_state-IsSizedCache}
use durian.State.Twins.{init_code-Same}
use durian.State.Twins.Written.{update_state_agrees}
use durian.Env.{ImportResolver}
use durian.Transaction.{Transaction, Action}
use durian.State.{new_state}
use durian.Execute.Gas.{contract_of}
use durian.Runtime.{u64_mod, Runtime, new_runtime, on_state}
use durian.Runtime.Storage.{init_code, update_state}
use durian.Runtime.Twins.{IsSizedRun, on_state-Same, sized_rules}
use durian.Interpreter.{Interpreter, Instance, InvokeResult}
use durian.Interpreter.Twins.{MayRun, run-Same}
use durian.Execute.{
  is_create, instantiate, start_result, run_contract, install, commit, settle, run_and_settle,
  in_runtime, run_with, run_code, execute, action_params, schedule,
}

-- An instance that asks for the block only where `AsksBlock` holds.
abbrev pub MayStart : {M : Type 0} → Type 0 → Instance M → Type 0
MayStart AsksBlock i = MayRun AsksBlock i.start × MayRun AsksBlock i.invoke_call

module _ {P M : Type 0} (api twin : Provider P) {IsValid : P → Type 0} {Updates AsksBlock : Type 0}
    (twins : AreTwins api twin IsValid Updates AsksBlock) ⦃crates : Crates⦄ ⦃wasmi : Wasmi M⦄
    (fills : FillsBuffers wasmi) where
  start_result-Same :
      (r : InvokeResult)
      → Same
          (IsSizedRun M Updates IsValid)
          (start_result ⦃api = api⦄ r)
          (start_result ⦃api = twin⦄ r)
  unfolding start_result
  start_result-Same (inl (WasmiError.trap k)) = search sized_rules
  start_result-Same (inr v) = search sized_rules
  start_result-Same _ = search sized_rules

  -- The run of a contract does the same over both.
  pub run_contract-Same :
      (i : Instance M) (n : ℕ)
      → MayStart AsksBlock i
      → Same
          (IsSizedRun M Updates IsValid)
          (run_contract ⦃api = api⦄ i n)
          (run_contract ⦃api = twin⦄ i n)
  unfolding run_contract
  run_contract-Same i n may =
      search (sized_rules, run-Same api twin twins fills, start_result-Same, may.0, may.1) depth 20

  install-Same :
      (action : Action) (params : ActionParams) (b : Bytes)
      → (is_create action ≡ true → Updates)
      → length params.address ≡ 20
      → Same
          (IsSizedRun M Updates IsValid)
          (install ⦃api = api⦄ action params b)
          (install ⦃api = twin⦄ action params b)
  unfolding init_code
  install-Same action params b updates sized =
      Same-if_known (is_create action) _ _ _ _
        (λ e. on_state-Same _ _ (init_code-Same api twin twins (updates e) params.address b sized))
        (Same-pure tt)

  runtime_update_agrees :
      (s : Runtime P M)
      → IsSizedRun M Updates IsValid s
      → update_state ⦃api = api⦄ s ≡ update_state ⦃api = twin⦄ s
  unfolding update_state on_state on_field
  runtime_update_agrees s h = rw (update_state_agrees api twin twins s.state h.state) refl

  commit_agrees :
      (action : Action) (params : ActionParams) (left : ℕ) (result : Bytes) (s : Runtime P M)
      → (is_create action ≡ true → Updates)
      → length params.address ≡ 20
      → IsSizedRun M Updates IsValid s
      → commit ⦃api = api⦄ action params left result s
        ≡ commit ⦃api = twin⦄ action params left result s
  unfolding commit
  commit_agrees action params left [] s updates sized h = refl
  commit_agrees action params left (x ∷ r) s updates sized h =
      bind_agrees _ _ _ _ s (install-Same action params (x ∷ r) updates sized)
        (λ _ t _ ht. unfold ◌>>=◌ in rw (runtime_update_agrees t ht) refl) h

  settle_agrees :
      (action : Action) (params : ActionParams) (s : Runtime P M)
      → (is_create action ≡ true → Updates)
      → length params.address ≡ 20
      → IsSizedRun M Updates IsValid s
      → settle ⦃api = api⦄ action params s ≡ settle ⦃api = twin⦄ action params s
  unfolding settle
  settle_agrees action params s updates sized h =
      bind_agrees _ _ _ _ s (Same-query _)
        (λ left t _ ht.
          bind_agrees _ _ _ _ t (Same-gets _)
            (λ result u _ hu.
              bind_agrees _ _ _ _ u (Same-query _)
                (λ left_adj v _ hv. commit_agrees action params left_adj result v updates sized hv)
                hu)
            ht)
        h

  run_and_settle_agrees :
      (action : Action) (params : ActionParams) (n : ℕ) (i : Instance M) (s : Runtime P M)
      → (is_create action ≡ true → Updates)
      → length params.address ≡ 20
      → MayStart AsksBlock i
      → IsSizedRun M Updates IsValid s
      → run_and_settle ⦃api = api⦄ action params n i s
        ≡ run_and_settle ⦃api = twin⦄ action params n i s
  unfolding run_and_settle
  run_and_settle_agrees action params n i s updates sized may h =
      bind_agrees _ _ _ _ s (run_contract-Same i n may)
        (λ _ t _ ht. settle_agrees action params t updates sized ht) h

  in_runtime_agrees :
      (action : Action) (params : ActionParams) (memory : M) (limit n : ℕ) (i : Instance M) (p : P)
      → (is_create action ≡ true → Updates)
      → length params.address ≡ 20
      → MayStart AsksBlock i
      → IsValid p
      → in_runtime ⦃api = api⦄ params memory limit (run_and_settle ⦃api = api⦄ action params n i) p
        ≡ in_runtime ⦃api = twin⦄ params memory limit
            (run_and_settle ⦃api = twin⦄ action params n i)
            p
  unfolding in_runtime new_runtime
  in_runtime_agrees action params memory limit n i p updates sized may valid =
      rw
        (run_and_settle_agrees action params n i
          (new_runtime params schedule (new_state p) memory limit) updates sized may
          (record { state = new_state-IsSizedCache p valid; address = sized }))
        refl

  run_with_agrees :
      (action : Action) (params : ActionParams) (gas : ℕ) (loaded : Instance M × ImportResolver M)
      (p : P)
      → (is_create action ≡ true → Updates)
      → length params.address ≡ 20
      → MayStart AsksBlock loaded.0
      → IsValid p
      → run_with ⦃api = api⦄ action params gas loaded p
        ≡ run_with ⦃api = twin⦄ action params gas loaded p
  unfolding run_with
  run_with_agrees action params gas (i, resolver) p updates sized may valid =
      elim (Bool-cases (ltb (u64_mod - 1) gas)) [
        | inl large ↦ rw large refl
        | inr fits ↦ rw fits (
            bind_agrees {Holds = IsValid} _ _ _ _ p (Same-lift _)
              (λ sizes q _ hq.
                bind_agrees _ _ _ _ q (Same-lift _)
                  (λ memory t _ ht.
                    in_runtime_agrees action params memory.0 (crates.low_u64 gas) sizes.0 i t
                      updates sized may ht)
                  hq)
              valid)
      ]

address-action_params :
    {P : Type 0} ⦃api : Provider P⦄ ⦃crates : Crates⦄ (tx : Transaction) (action : Action) (p : P)
    {params : ActionParams}
    → action_params tx action p ≡ ok params
    → params.address ≡ contract_of tx action
unfolding action_params
address-action_params tx (Action.create code salt) p h = ground arith
address-action_params tx (Action.call a) p h = ground arith

lifted : {S A : Type 0} (r : Outcome A) (s : S) {a : A} → (lift r s).0 ≡ ok a → r ≡ ok a
unfolding lift
lifted r s h = h

module _ (Code Loaded M : Type 0) ⦃crates : Crates⦄ ⦃tools : WasmTools Code⦄
    ⦃interpreter : Interpreter Code Loaded M⦄ where
  -- The code of the parameters asks for the block only where `AsksBlock` holds.
  abbrev pub MayLoad : Type 0 → ActionParams → Type 0
  MayLoad Asks params =
      (costs : WasmCosts) (loaded : Instance M × ImportResolver M)
      → instantiate Code Loaded M params costs ≡ ok loaded
      → MayStart Asks loaded.0

module _ (Code Loaded M : Type 0) {P : Type 0} (api twin : Provider P) {IsValid : P → Type 0}
    {Updates AsksBlock : Type 0} (twins : AreTwins api twin IsValid Updates AsksBlock)
    ⦃crates : Crates⦄ ⦃wasmi : Wasmi M⦄ ⦃tools : WasmTools Code⦄
    ⦃interpreter : Interpreter Code Loaded M⦄ (fills : FillsBuffers wasmi) where
  run_code_agrees :
      (action : Action) (params : ActionParams) (p : P)
      → (is_create action ≡ true → Updates)
      → length params.address ≡ 20
      → MayLoad Code Loaded M AsksBlock params
      → IsValid p
      → run_code Code Loaded M ⦃api = api⦄ action params p
        ≡ run_code Code Loaded M ⦃api = twin⦄ action params p
  unfolding run_code
  run_code_agrees action params p updates sized may valid =
      bind_agrees {Holds = IsValid} _ _ _ _ p (Same-lift _)
        (λ costs q _ hq.
          bind_agrees _ _ _ _ q (Same-lift _)
            (λ loaded t e ht.
              bind_agrees _ _ _ _ t (Same-lift _)
                (λ gas u _ hu.
                  run_with_agrees api twin twins fills action params gas loaded u updates sized
                    (may costs loaded (lifted _ q e)) hu)
                ht)
            hq)
        valid

  -- Over two providers that cannot be told apart, a transaction to an address of 20 bytes has the same
  -- outcome and leaves the same blockchain; where the two may differ in what they say of the block or
  -- in updates of accounts, for a contract that does not ask and a transaction that creates none.
  pub execute_agrees :
      (tx : Transaction) (p : P)
      → (is_create tx.action ≡ true → Updates)
      → length (contract_of tx tx.action) ≡ 20
      → action_params ⦃api = api⦄ tx tx.action p ≡ action_params ⦃api = twin⦄ tx tx.action p
      → ((params : ActionParams)
          → action_params ⦃api = twin⦄ tx tx.action p ≡ ok params
          → MayLoad Code Loaded M AsksBlock params)
      → IsValid p
      → execute Code Loaded M ⦃api = api⦄ tx p ≡ execute Code Loaded M ⦃api = twin⦄ tx p
  unfolding execute query ◌>>=◌
  execute_agrees tx p updates sized same may valid =
      elim (Outcome-cases (action_params ⦃api = twin⦄ tx tx.action p)) [
        | inl (params, e) ↦
            rw (same, e)
              (run_code_agrees tx.action params p updates
                (rw (address-action_params ⦃api = twin⦄ tx tx.action p e) sized) (may params e)
                valid)
        | inr (inl (er, e)) ↦ rw (same, e) refl
        | inr (inr e) ↦ rw (same, e) refl
      ]
