-- ===== src/Execute/Committed.antt =====
-- What a run that ends well in durian/src/execute.rs leaves on the blockchain.
use durian.Base.{ℕ, ◌≡◌, ◌≢◌, refl, ◌∙◌, [], ◌∷◌, arith, Bytes}
use durian.Exec.{ok, Exec, pure, on_field, ◌>>=◌}
use durian.Exec.Bind.{>>=-eq-ok, >>=-after}
use durian.Types.{Address, H256, ActionParams}
use durian.Crates.{Crates, Wasmi}
use durian.Provider.{Provider}
use durian.Provider.Store.{IsStore}
use durian.State.{new_state}
use durian.State.View.{value_at}
use durian.State.View.Slots.{value_at-init_code}
use durian.State.Coherent.{IsCoherent, value_at-update_state}
use durian.Transaction.{Action}
use durian.Runtime.{Runtime, on_state}
use durian.Runtime.Storage.{init_code, update_state}
use durian.Runtime.Guard.{HostStep}
use durian.Interpreter.{Instance}
use durian.Execute.{
  ResultData, result_data, is_create, run_contract, install, commit, settle, run_and_settle,
}
use durian.Execute.Writes.{run_contract-HostStep, install-HostStep}

module _ {P M : Type 0} ⦃api : Provider P⦄ ⦃crates : Crates⦄ ⦃wasmi : Wasmi M⦄
    {IsValid : P → Type 0} (store : IsStore api IsValid) where
  value_at-install :
      (b : Address) (j : H256) (action : Action) (params : ActionParams) (result : Bytes)
      (s : Runtime P M)
      → value_at b j (install action params result s).1.state ≡ value_at b j s.state
  unfolding is_create init_code on_state on_field pure
  value_at-install b j (Action.create code salt) params result s =
      value_at-init_code params.address b result j s.state
  value_at-install b j (Action.call a) params result s = refl

  value_at-write_back :
      (b : Address) (j : H256) (s : Runtime P M)
      → IsCoherent api s.state
      → IsValid s.state.provider
      → (update_state s).0 ≡ ok tt
      → value_at b j (new_state (update_state s).1.state.provider) ≡ value_at b j s.state
  unfolding update_state on_state on_field
  value_at-write_back b j s h valid e = value_at-update_state store b j s.state h valid e

  value_at-commit :
      (b : Address) (j : H256) (action : Action) (params : ActionParams) (left : ℕ) (result : Bytes)
      (s : Runtime P M) {d : ResultData}
      → IsCoherent api s.state
      → IsValid s.state.provider
      → (commit action params left result s).0 ≡ ok d
      → d.data_bytes ≢ []
      → value_at b j (new_state (commit action params left result s).1.state.provider)
        ≡ value_at b j s.state
  unfolding commit pure
  value_at-commit b j action params left [] s h valid e full = absurd (full (ground arith))
  value_at-commit b j action params left (x ∷ r) s h valid e full =
      let done : Exec (Runtime P M) ResultData = pure (result_data left (x ∷ r) params) in
      let finish : Exec (Runtime P M) ResultData = update_state >>= λ _. done in
      let (_, e1, f1) = >>=-eq-ok (install action params (x ∷ r)) (λ _. finish) s e in
      let t = (install action params (x ∷ r) s).1 in
      let (_, e2, f2) = >>=-eq-ok update_state (λ _. done) t f1 in
      let step : HostStep s t = (install-HostStep action params (x ∷ r)).at s in
      rw
        (
          >>=-after (install action params (x ∷ r)) (λ _. finish) s e1,
          >>=-after update_state (λ _. done) t e2,
        )
        (value_at-write_back b j t (step.coherent h) (rw step.provider valid) e2
          ∙ value_at-install b j action params (x ∷ r) s)

  value_at-settle :
      (b : Address) (j : H256) (action : Action) (params : ActionParams) (s : Runtime P M)
      {d : ResultData}
      → IsCoherent api s.state
      → IsValid s.state.provider
      → (settle action params s).0 ≡ ok d
      → d.data_bytes ≢ []
      → value_at b j (new_state (settle action params s).1.state.provider) ≡ value_at b j s.state
  unfolding settle ◌>>=◌
  value_at-settle b j action params s h valid e full =
      grind (arith, value_at-commit b j action params)

  -- Over a provider whose storage behaves as one, in a valid state, a run on a coherent cache that ends well with data leaves a
  -- blockchain on which a new cache shows every slot of every account as the contract left it.
  pub value_at-run_and_settle :
      (b : Address) (j : H256) (action : Action) (params : ActionParams) (n : ℕ) (i : Instance M)
      (s : Runtime P M) {d : ResultData}
      → IsCoherent api s.state
      → IsValid s.state.provider
      → (run_and_settle action params n i s).0 ≡ ok d
      → d.data_bytes ≢ []
      → value_at b j (new_state (run_and_settle action params n i s).1.state.provider)
        ≡ value_at b j (run_contract i n s).1.state
  unfolding run_and_settle
  value_at-run_and_settle b j action params n i s h valid e full =
      let (_, e1, f1) = >>=-eq-ok (run_contract i n) (λ _. settle action params) s e in
      let t = (run_contract i n s).1 in
      let step : HostStep s t = (run_contract-HostStep i n).at s in
      rw (>>=-after (run_contract i n) (λ _. settle action params) s e1)
        (value_at-settle b j action params t (step.coherent h) (rw step.provider valid) f1 full)
