-- ===== src/Interpreter/Confined.antt =====
-- Runs of a contract (Interpreter.antt) and the relation of Runtime/Guard.
use durian.Base.{Option, ◌≤◌, ◌≡◌, arith}
use durian.Exec.{Outcome, ok, err, panicked, Exec}
use durian.Crates.{Crates, Wasmi, RuntimeValue}
use durian.Provider.{Provider}
use durian.State.Coherent.{IsCoherent}
use durian.Runtime.{Runtime}
use durian.Runtime.Dispatch.{invoke_index}
use durian.Runtime.Guard.{HostStep, HostStep-chain, HostStep-same, HostStep-memory}
use durian.Runtime.Guard.Handlers.{invoke_index-HostStep}
use durian.Interpreter.{Guest, InvokeResult, resume, run}

module _ {P M : Type 0} ⦃api : Provider P⦄ where
  resume-HostStep :
      (s : Runtime P M) (r : Outcome (Option RuntimeValue)) (t : Runtime P M)
      (k : Option RuntimeValue → Exec (Runtime P M) InvokeResult)
      → HostStep s t
      → ((v : Option RuntimeValue) → HostStep t (k v t).1)
      → HostStep s (resume (r, t) k).1
  resume-HostStep s (ok v) t k h hk = HostStep-chain s t (k v t).1 h (hk v)
  resume-HostStep s (err e) t k h hk = h
  resume-HostStep s panicked t k h hk = h

module _ {P M : Type 0} ⦃api : Provider P⦄ ⦃crates : Crates⦄ ⦃wasmi : Wasmi M⦄ where
  -- A run of any contract leaves the schedule, the gas limit, the parameters and the blockchain as
  -- they were, never gives gas back, and never charges past the limit.
  pub run-HostStep : (g : Guest M) (s : Runtime P M) → HostStep s (run g s).1
  unfolding run
  run-HostStep (Guest.finish r) s = HostStep-same s
  run-HostStep (Guest.touch write rest) s =
      HostStep-chain s (record s { memory = write s.memory })
        (run (rest (write s.memory)) (record s { memory = write s.memory })).1
        (HostStep-memory s (write s.memory))
        (run-HostStep (rest (write s.memory)) (record s { memory = write s.memory }))
  run-HostStep (Guest.call index args rest) s =
      let (r, t) = invoke_index index args s in
      resume-HostStep s r t (λ v. run (rest v)) ((invoke_index-HostStep index args).at s)
        (λ v. run-HostStep (rest v) t)

  -- A run of any contract that starts with the meter within its limit leaves the schedule, the limit,
  -- the parameters of the call and the blockchain as they were, gives no gas back, and ends with
  -- the meter within the limit.
  pub run_confined :
      (g : Guest M) (s : Runtime P M)
      → s.gas_counter ≤ s.gas_limit
      → ((run g s).1.schedule ≡ s.schedule)
        × ((run g s).1.gas_limit ≡ s.gas_limit)
        × ((run g s).1.params ≡ s.params)
        × ((run g s).1.state.provider ≡ s.state.provider)
        × (s.gas_counter ≤ (run g s).1.gas_counter)
        × ((run g s).1.gas_counter ≤ s.gas_limit)
  run_confined g s h =
      let step : HostStep s (run g s).1 = run-HostStep g s in
      let below = step.bounded h in
      (step.schedule, step.limit, step.params, step.provider, step.grows, omega (arith, step.limit))

  -- A run of any contract leaves a coherent cache coherent: what it has not modified agrees with the
  -- blockchain.
  pub run-IsCoherent :
      (g : Guest M) (s : Runtime P M) → IsCoherent api s.state → IsCoherent api (run g s).1.state
  run-IsCoherent g s h = let step : HostStep s (run g s).1 = run-HostStep g s in step.coherent h
