-- ===== src/Interpreter/Metered.antt =====
-- What the metering calls that durian/src/parser.rs has injected into a contract are for: a run ends.
use durian.Base.{ℕ, ◌+◌, ◌-◌, ◌<◌, ◌≤◌, ◌≡◌, refl, ◌⊎◌, inl, inr, Option, arith}
use durian.Error.{Error, TrapKind, WasmiError}
use durian.Exec.{Outcome, ok, err, panicked, Exec, lift, ◌>>=◌}
use durian.Crates.{Crates, Wasmi, RuntimeValue, RuntimeArgs}
use durian.Provider.{Provider}
use durian.Env.{gas_func}
use durian.Runtime.{Runtime, charge_gas, arg_u32}
use durian.Runtime.Output.{gas}
use durian.Runtime.Dispatch.{invoke_index, without_value}
use durian.Runtime.Guard.{HostStep}
use durian.Runtime.Guard.Handlers.{invoke_index-HostStep}
use durian.Interpreter.{Guest, InvokeResult, resume, run}

module _ {M : Type 0} ⦃wasmi : Wasmi M⦄ where
  -- Whatever it reads and is answered, the contract makes at least `n` metering calls of at least one
  -- unit each before it ends by itself.
  unfoldable pub Pays : ℕ → Guest M → Type 0
  Pays n (Guest.finish r) = n ≡ 0
  Pays n (Guest.touch write rest) = (m : M) → Pays n (rest m)
  Pays n (Guest.call index args rest) =
      ((index ≡ gas_func)
        × (amount : ℕ) × (wasmi.nth_u32 args 0 ≡ inr amount)
        × (1 ≤ amount)
        × ((v : Option RuntimeValue) → Pays (n - 1) (rest v)))
      ⊎ ((v : Option RuntimeValue) → Pays n (rest v))

-- A run that was ended by the host and not by the contract.
pub data IsStopped : Outcome InvokeResult → Type 0 where
  by_error : (e : Error) → IsStopped (ok (inl (WasmiError.trap (TrapKind.host e))))
  by_panic : IsStopped panicked

module _ {P M : Type 0} where
  resume-IsStopped :
      (r : Outcome (Option RuntimeValue)) (t : Runtime P M)
      (k : Option RuntimeValue → Exec (Runtime P M) InvokeResult)
      → ((v : Option RuntimeValue) → r ≡ ok v → IsStopped (k v t).0)
      → IsStopped (resume (r, t) k).0
  resume-IsStopped (ok v) t k h = h v refl
  resume-IsStopped (err e) t k h = by_error e
  resume-IsStopped panicked t k h = by_panic

module _ {P M : Type 0} ⦃api : Provider P⦄ ⦃crates : Crates⦄ ⦃wasmi : Wasmi M⦄ where
  -- A metering call that is answered has charged its amount, within the limit.
  metered :
      (args : RuntimeArgs) (amount : ℕ) (s : Runtime P M) {v : Option RuntimeValue}
      → wasmi.nth_u32 args 0 ≡ inr amount
      → (invoke_index gas_func args s).0 ≡ ok v
      → let t = (invoke_index gas_func args s).1 in
        (t.gas_limit ≡ s.gas_limit)
        × (t.gas_counter ≡ s.gas_counter + amount)
        × (t.gas_counter ≤ t.gas_limit)
  unfolding invoke_index without_value gas charge_gas arg_u32 lift ◌>>=◌
  metered args amount s h e = ground arith

  -- However a contract computes, it is ended by the host before it has made more metering calls of at
  -- least one unit than there are units left: where it would make that many before it ends by itself,
  -- its run ends with a host trap or a panic.
  pub run-IsStopped :
      (g : Guest M) (n : ℕ) (s : Runtime P M)
      → Pays n g
      → s.gas_limit < s.gas_counter + n
      → s.gas_counter ≤ s.gas_limit
      → IsStopped (run g s).0
  unfolding run Pays
  run-IsStopped (Guest.finish r) n s pays above below = absurd (omega (arith, pays))
  run-IsStopped (Guest.touch write rest) n s pays above below =
      run-IsStopped (rest (write s.memory)) n (record s { memory = write s.memory })
        (pays (write s.memory)) above below
  run-IsStopped (Guest.call index args rest) n s (inr pays) above below =
      let t = (invoke_index index args s).1 in
      let step : HostStep s t = (invoke_index-HostStep index args).at s in
      resume-IsStopped (invoke_index index args s).0 t (λ v. run (rest v))
        (λ v e.
          run-IsStopped (rest v) n t (pays v) (omega (arith, step.grows, step.limit))
            (step.bounded below))
  run-IsStopped (Guest.call index args rest) n s (inl (is_gas, amount, h, positive, pays)) above
        below =
      rw is_gas (
        resume-IsStopped (invoke_index gas_func args s).0 (invoke_index gas_func args s).1
          (λ v. run (rest v))
          (λ v e.
            let (limit, counter, within) = metered args amount s h e in
            run-IsStopped (rest v) (n - 1) (invoke_index gas_func args s).1 (pays v)
              (omega (arith, limit, counter)) within))
