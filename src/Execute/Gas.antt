-- ===== src/Execute/Gas.antt =====
-- The gas accounting of durian/src/execute.rs, from the transaction's gas to the gas that is left.
use durian.Base.{
  ℕ, ◌-◌, ◌*◌, ◌/◌, ◌^◌, ◌≤◌, ◌<◌, ◌≡◌, refl, ◌∙◌, dec_lt, arith, Bool-cases, inl, inr, ltb, Bytes,
  ◌∷◌, [],
}
use native.Mathlib.Nat.{le_trans}
use durian.Error.{Error}
use durian.Exec.{Outcome, ok, err, panicked, lift, query, ◌>>=◌}
use durian.Exec.Bind.{>>=-eq-ok}
use durian.Types.{Address, ActionParams}
use durian.WasmCost.{default_costs}
use durian.Schedule.{wasm_costs}
use durian.Crates.{Crates, IsDocumented, Wasmi}
use durian.Provider.{Provider}
use durian.Env.{ImportResolver, memory_size, memory_ref}
use durian.Transaction.{Transaction, Action}
use durian.Utils.{contract_address}
use durian.Parser.{WasmTools}
use durian.State.{new_state}
use durian.Runtime.{Runtime, u64_mod, new_runtime, gas_left}
use durian.Runtime.Guard.{HostStep}
use durian.Interpreter.{Interpreter, Instance}
use durian.Execute.Writes.{run_contract-HostStep}
use durian.Execute.{
  ResultData, adjusted_gas, restored_gas, run_contract, commit, settle, run_and_settle, in_runtime,
  run_with, run_code, execute, schedule, action_params, instantiate,
}

err_ne_ok : {e : Error} {d : ResultData} → ◌≡◌ {A = Outcome ResultData} (err e) (ok d) → ⊥
err_ne_ok h = cc

module _ ⦃crates : Crates⦄ (doc : IsDocumented crates) where
  -- Adjusting gas by 8/3 succeeds exactly for gas below 2^256 / 8, and is then exact.
  adjusted_gas-exact :
      (gas : ℕ) → gas * 8 < 2 ^ 256 → adjusted_gas default_costs gas ≡ ok (gas * 8 / 3)
  unfolding adjusted_gas
  adjusted_gas-exact gas h =
      ground (arith, doc.mul_exact gas 8 h, doc.div_exact (gas * 8) 3 (omega arith))

  adjusted_gas-overflow : (gas : ℕ) → 2 ^ 256 ≤ gas * 8 → adjusted_gas default_costs gas ≡ panicked
  unfolding adjusted_gas
  adjusted_gas-overflow gas h = ground (arith, doc.mul_overflow gas 8 h)

  adjusted_gas-bound : (gas : ℕ) {x : ℕ} → adjusted_gas default_costs gas ≡ ok x → x * 3 / 8 ≤ gas
  adjusted_gas-bound gas h = elim (dec_lt (gas * 8) (2 ^ 256)) [
    | yes fits ↦ ground (arith, adjusted_gas-exact gas fits)
    | no over ↦ ground (arith, adjusted_gas-overflow gas (omega arith))
  ]

  pub restored_gas-exact :
      (left : ℕ) → left < 2 ^ 64 → restored_gas default_costs left ≡ ok (left * 3 / 8)
  unfolding restored_gas
  restored_gas-exact left h =
      ground (arith, doc.mul_exact left 3 (omega arith), doc.div_exact (left * 3) 8 (omega arith))

module _ {P M : Type 0} ⦃api : Provider P⦄ ⦃crates : Crates⦄ ⦃wasmi : Wasmi M⦄ where
  -- Whatever the contract does, the meter ends within the limit it started with, so that asking for
  -- the gas left cannot fail after a run.
  pub gas_left-run_contract :
      (i : Instance M) (n : ℕ) (s : Runtime P M)
      → s.gas_counter ≤ s.gas_limit
      → gas_left (run_contract i n s).1 ≡ ok (s.gas_limit - (run_contract i n s).1.gas_counter)
  unfolding gas_left
  gas_left-run_contract i n s h =
      let step : HostStep s (run_contract i n s).1 = (run_contract-HostStep i n).at s in
      let below = step.bounded h in ground (arith, step.limit)

  commit-gas_left :
      (action : Action) (params : ActionParams) (left : ℕ) (result : Bytes) (s : Runtime P M)
      {d : ResultData}
      → (commit action params left result s).0 ≡ ok d
      → (d.gas_left ≡ left) × (d.contract ≡ params.address) × (d.logs ≡ [])
  unfolding commit ◌>>=◌
  commit-gas_left action params left [] s h = ground arith
  commit-gas_left action params left (b ∷ r) s h = ground arith

  -- The gas that is given back: what the meter has left, in the schedule's unit.
  settle-gas_left :
      IsDocumented crates
      → (action : Action) (params : ActionParams) (s : Runtime P M) {d : ResultData}
      → s.schedule ≡ schedule
      → s.gas_counter ≤ s.gas_limit
      → s.gas_limit < 2 ^ 64
      → (settle action params s).0 ≡ ok d
      → (d.gas_left ≡ (s.gas_limit - s.gas_counter) * 3 / 8)
        × (d.contract ≡ params.address)
        × (d.logs ≡ [])
  unfolding settle gas_left schedule ◌>>=◌ wasm_costs
  settle-gas_left doc action params s es h lim e =
      grind (arith, commit-gas_left, restored_gas-exact doc)

  settle_after-gas_left :
      IsDocumented crates
      → (action : Action) (params : ActionParams) (i : Instance M) (n : ℕ) (s : Runtime P M)
        {d : ResultData}
      → s.schedule ≡ schedule
      → s.gas_counter ≡ 0
      → s.gas_limit < 2 ^ 64
      → (settle action params (run_contract i n s).1).0 ≡ ok d
      → (d.gas_left ≤ s.gas_limit * 3 / 8) × (d.contract ≡ params.address) × (d.logs ≡ [])
  settle_after-gas_left doc action params i n s es h lim e =
      let step : HostStep s (run_contract i n s).1 = (run_contract-HostStep i n).at s in
      let (left, at_address, none_logged) =
        settle-gas_left doc action params (run_contract i n s).1 (step.schedule ∙ es)
          (step.bounded (omega arith)) (omega (arith, step.limit)) e in
      let lim' : (run_contract i n s).1.gas_limit ≡ s.gas_limit = step.limit in
      (omega arith, at_address, none_logged)

  in_runtime-gas_left :
      IsDocumented crates
      → (action : Action) (params : ActionParams) (i : Instance M) (n limit : ℕ) (memory : M)
        (p : P) {d : ResultData}
      → limit < 2 ^ 64
      → (in_runtime params memory limit (run_and_settle action params n i) p).0 ≡ ok d
      → (d.gas_left ≤ limit * 3 / 8) × (d.contract ≡ params.address) × (d.logs ≡ [])
  unfolding in_runtime run_and_settle new_runtime
  in_runtime-gas_left doc action params i n limit memory p lim h =
      let start = new_runtime params schedule (new_state p) memory limit in
      let (_, _, settled) = >>=-eq-ok (run_contract i n) (λ _. settle action params) start h in
      settle_after-gas_left doc action params i n start refl refl lim settled

  run_with-gas_left :
      IsDocumented crates
      → (action : Action) (params : ActionParams) (gas : ℕ) (loaded : Instance M × ImportResolver M)
        (p : P) {d : ResultData}
      → (run_with action params gas loaded p).0 ≡ ok d
      → (d.gas_left ≤ gas * 3 / 8) × (d.contract ≡ params.address) × (d.logs ≡ [])
  unfolding run_with ◌>>=◌
  run_with-gas_left doc action params gas (i, resolver) p h =
      elim (Bool-cases (ltb (u64_mod - 1) gas)) [
        | inl over ↦ absurd (err_ne_ok (rw over at h))
        | inr fits ↦
            let (sized, _, h1) = >>=-eq-ok (lift (memory_size resolver)) _ p (rw fits at h) in
            let (memory, _, h2) = >>=-eq-ok (lift (memory_ref sized.1)) _ p h1 in
            let low : crates.low_u64 gas ≡ gas = doc.low_u64_exact gas ∙ ground arith in
            rw low at (
              in_runtime-gas_left doc action params i sized.0 (crates.low_u64 gas) memory.0 p
                (rw low (ground arith)) h2)
      ]

-- The address that a transaction runs at.
abbrev pub contract_of : ⦃crates : Crates⦄ → Transaction → Action → Address
contract_of transaction (Action.create code salt) = contract_address transaction.sender code salt
contract_of transaction (Action.call address) = address

module _ {P : Type 0} ⦃api : Provider P⦄ ⦃crates : Crates⦄ where
  action_params-fields :
      (transaction : Transaction) (action : Action) (p : P) {params : ActionParams}
      → action_params transaction action p ≡ ok params
      → (params.gas ≡ transaction.gas) × (params.address ≡ contract_of transaction action)
  unfolding action_params
  action_params-fields transaction (Action.create code salt) p h = ground arith
  action_params-fields transaction (Action.call a) p h = ground arith

module _ (Code Loaded M : Type 0) {P : Type 0} ⦃api : Provider P⦄ ⦃crates : Crates⦄
    ⦃wasmi : Wasmi M⦄ ⦃tools : WasmTools Code⦄ ⦃interpreter : Interpreter Code Loaded M⦄ where
  run_code-gas_left :
      IsDocumented crates
      → (action : Action) (params : ActionParams) (p : P) {d : ResultData}
      → (run_code Code Loaded M action params p).0 ≡ ok d
      → (d.gas_left ≤ params.gas) × (d.contract ≡ params.address) × (d.logs ≡ [])
  unfolding run_code schedule wasm_costs ◌>>=◌
  run_code-gas_left doc action params p h =
      let (loaded, _, h1) =
        >>=-eq-ok (lift (instantiate Code Loaded M params default_costs))
          (λ loaded. do
            gas ← lift (adjusted_gas default_costs params.gas)
            run_with action params gas loaded)
          p h in
      let (gas, hg, h2) =
        >>=-eq-ok (lift (adjusted_gas default_costs params.gas))
          (λ gas. run_with action params gas loaded) p h1 in
      let (left, at_address, none_logged) = run_with-gas_left doc action params gas loaded p h2 in
      (le_trans left (adjusted_gas-bound doc params.gas hg), at_address, none_logged)

  -- A transaction that ends well gives back no more gas than it brought, names the contract that it
  -- called or created, and reports no logs.
  pub execute-gas_left :
      IsDocumented crates
      → (transaction : Transaction) (p : P) {d : ResultData}
      → (execute Code Loaded M transaction p).0 ≡ ok d
      → (d.gas_left ≤ transaction.gas)
        × (d.contract ≡ contract_of transaction transaction.action)
        × (d.logs ≡ [])
  unfolding execute ◌>>=◌
  execute-gas_left doc transaction p h =
      let (params, hp, h1) =
        >>=-eq-ok (query (action_params transaction transaction.action))
          (run_code Code Loaded M transaction.action) p h in
      let (gas, address) = action_params-fields transaction transaction.action p hp in
      let (left, at_address, none_logged) = run_code-gas_left doc transaction.action params p h1 in
      (rw gas at left, at_address ∙ address, none_logged)
