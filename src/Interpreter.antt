-- ===== src/Interpreter.antt =====
-- The interpreter's side of a run. wasmi's source is not in the repository: what a contract does is a
-- parameter, a tree of its next move, and `run` is the part that durian/src/runtime.rs sees: a
-- contract reads and writes its memory, calls host functions by number through
-- `Externals::invoke_index`, and ends with a result or an error. An error of a host function ends
-- the run as a host trap. The gas meter that `parser.rs` injects makes every run finite.
pub mod Confined
pub mod Twins
pub mod View
pub mod Metered
use durian.Base.{ℕ, Option, ◌⊎◌, inl}
use durian.Error.{TrapKind, WasmiError}
use durian.Exec.{Outcome, ok, err, panicked, Exec}
use durian.Crates.{Crates, Wasmi, RuntimeArgs, RuntimeValue}
use durian.Provider.{Provider}
use durian.Runtime.{Runtime}
use durian.Runtime.Dispatch.{invoke_index}
use durian.Env.{ImportResolver}

-- `Result<Option<RuntimeValue>, wasmi::Error>`
abbrev pub InvokeResult : Type 0
InvokeResult = WasmiError ⊎ Option RuntimeValue

pub data Guest (M : Type 0) : Type 0 where
  finish : InvokeResult → Guest M
  touch : (M → M) → (M → Guest M) → Guest M
  call : ℕ → RuntimeArgs → (Option RuntimeValue → Guest M) → Guest M

-- A module whose imports are resolved: what its start function and its export `call` do.
pub record Instance (M : Type 0) : Type 0 where
  pub start : Guest M
  pub invoke_call : Guest M

-- wasmi's treatment of modules: `Code` is a parity-wasm module, `Loaded` a validated one.
pub record Interpreter (Code Loaded M : Type 0) : Type 0 where
  pub from_parity_wasm_module : Code → WasmiError ⊎ Loaded
  pub new_instance : Loaded → ImportResolver M → WasmiError ⊎ (Instance M × ImportResolver M)

module _ {P M : Type 0} where
  -- How a host call ends the contract's wait for it.
  abbrev pub resume :
      Outcome (Option RuntimeValue) × Runtime P M
      → (Option RuntimeValue → Exec (Runtime P M) InvokeResult)
      → Outcome InvokeResult × Runtime P M
  resume (ok v, s) k = k v s
  resume (err e, s) k = (ok (inl (WasmiError.trap (TrapKind.host e))), s)
  resume (panicked, s) k = (panicked, s)

module _ {P M : Type 0} ⦃api : Provider P⦄ ⦃crates : Crates⦄ ⦃wasmi : Wasmi M⦄ where
  unfoldable pub run : Guest M → Exec (Runtime P M) InvokeResult
  run (Guest.finish r) s = (ok r, s)
  run (Guest.touch write rest) s = let m = write s.memory in run (rest m) (record s { memory = m })
  run (Guest.call index args rest) s = resume (invoke_index index args s) (λ v. run (rest v))
