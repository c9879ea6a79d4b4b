-- ===== src/Execute/Traps.antt =====
-- How durian/src/execute.rs ends a run, by the result of the contract's `call`.
use durian.Base.{◌≡◌, ◌≢◌, ◌++◌, codes, refl, ℕ, inl, inr, Option, none, ◌⊎◌, Bytes}
use mathlib.Core.Path.{fun_ext}
use durian.Error.{Error, TrapKind, WasmiError, from_wasmi}
use durian.Exec.{Outcome, ok, err, panicked, Exec, convert, and_then, lift, continue, ◌>>=◌}
use durian.Types.{ActionParams}
use durian.WasmCost.{WasmCosts}
use durian.Crates.{Crates, Wasmi, RuntimeValue}
use durian.Provider.{Provider}
use durian.Parser.{WasmTools}
use durian.Env.{ImportResolver}
use durian.Transaction.{Action, Transaction}
use durian.Runtime.{Runtime}
use durian.Runtime.Dispatch.{invoke_index}
use durian.Interpreter.{Guest, Instance, InvokeResult, Interpreter, resume, run}
use durian.Execute.{
  ResultData, check_result, run_contract, run_and_settle, run_with, instantiate, run_code, execute,
}

-- A result of the contract's `call` is taken for a normal end, but for a host trap with an error
-- other than the two signals, whose text is passed on.
pub check_result_lem :
    (show : TrapKind → Bytes) (r : InvokeResult)
    → (check_result show r ≡ ok tt)
      ⊎ ((e : Error) × (r ≡ inl (WasmiError.trap (TrapKind.host e)))
          × (e ≢ Error.return)
          × (e ≢ Error.suicide)
          × (check_result show r
              ≡ err (Error.wasm (codes "Wasm Trap error: " ++ show (TrapKind.host e)))))
unfolding check_result from_wasmi
check_result_lem show (inr v) = inl refl
check_result_lem show (inl (WasmiError.trap (TrapKind.host Error.suicide))) = inl refl
check_result_lem show (inl (WasmiError.trap (TrapKind.host Error.return))) = inl refl
check_result_lem show (inl (WasmiError.trap (TrapKind.host e))) = inr (e, refl, cc, cc, refl)
check_result_lem show (inl (WasmiError.trap k)) = inl refl
check_result_lem show (inl r) = inl refl

-- An error of the interpreter's own (an unreachable instruction, a memory fault, a stack overflow, a
-- missing export) becomes a normal end that returns nothing. An error of a host function stays.
abbrev pub forgive : InvokeResult → InvokeResult
forgive (inl (WasmiError.trap (TrapKind.host e))) = inl (WasmiError.trap (TrapKind.host e))
forgive (inl e) = inr none
forgive (inr v) = inr v

module _ {M : Type 0} where
  -- The contract that does the same, and whose end is forgiven.
  unfoldable pub forgiven : Guest M → Guest M
  forgiven (Guest.finish r) = Guest.finish (forgive r)
  forgiven (Guest.touch write rest) = Guest.touch write (λ m. forgiven (rest m))
  forgiven (Guest.call index args rest) = Guest.call index args (λ v. forgiven (rest v))

  abbrev pub lenient_instance : Instance M → Instance M
  lenient_instance i = record { start = i.start; invoke_call = forgiven i.invoke_call }

  abbrev lenient_result :
      WasmiError ⊎ (Instance M × ImportResolver M) → WasmiError ⊎ (Instance M × ImportResolver M)
  lenient_result (inl e) = inl e
  lenient_result (inr (i, r)) = inr (lenient_instance i, r)

-- The interpreter whose contracts' `call` never fails by an error of the interpreter's own.
abbrev pub lenient :
    {Code Loaded M : Type 0} → Interpreter Code Loaded M → Interpreter Code Loaded M
lenient interpreter = record {
  from_parity_wasm_module = interpreter.from_parity_wasm_module;
  new_instance = λ loaded r. lenient_result (interpreter.new_instance loaded r);
}

check_result-forgive :
    (show : TrapKind → Bytes) (r : InvokeResult)
    → check_result show (forgive r) ≡ check_result show r
unfolding check_result
check_result-forgive show (inr v) = refl
check_result-forgive show (inl (WasmiError.trap (TrapKind.host Error.suicide))) = refl
check_result-forgive show (inl (WasmiError.trap (TrapKind.host Error.return))) = refl
check_result-forgive show (inl (WasmiError.trap (TrapKind.host e))) = refl
check_result-forgive show (inl (WasmiError.trap k)) = refl
check_result-forgive show (inl e) = refl

module _ {P M : Type 0} where
  -- What `execute` makes of a run's end.
  abbrev ended :
      (TrapKind → Bytes) → Outcome InvokeResult × Runtime P M → Outcome (Unit {0}) × Runtime P M
  ended show (r, s) = continue r (λ x. lift (check_result show x)) s

  ended-resume :
      (show : TrapKind → Bytes) (r : Outcome (Option RuntimeValue)) (t : Runtime P M)
      (k l : Option RuntimeValue → Exec (Runtime P M) InvokeResult)
      → ((v : Option RuntimeValue) (u : Runtime P M) → ended show (k v u) ≡ ended show (l v u))
      → ended show (resume (r, t) k) ≡ ended show (resume (r, t) l)
  ended-resume show (ok v) t k l same = same v t
  ended-resume show (err e) t k l same = refl
  ended-resume show panicked t k l same = refl

module _ {P M : Type 0} ⦃api : Provider P⦄ ⦃crates : Crates⦄ ⦃wasmi : Wasmi M⦄ where
  ended-run :
      (show : TrapKind → Bytes) (g : Guest M) (s : Runtime P M)
      → ended show (run (forgiven g) s) ≡ ended show (run g s)
  unfolding run forgiven lift
  ended-run show (Guest.finish r) s = rw (check_result-forgive show r) refl
  ended-run show (Guest.touch write rest) s =
      ended-run show (rest (write s.memory)) (record s { memory = write s.memory })
  ended-run show (Guest.call index args rest) s =
      ended-resume show (invoke_index index args s).0 (invoke_index index args s).1
        (λ v. run (forgiven (rest v))) (λ v. run (rest v)) (λ v u. ended-run show (rest v) u)

  run_forgiven :
      (show : TrapKind → Bytes) (g : Guest M)
      → ◌≡◌ {A = Exec (Runtime P M) Unit}
          (run (forgiven g) >>= λ r. lift (check_result show r))
          (run g >>= λ r. lift (check_result show r))
  unfolding ◌>>=◌
  run_forgiven show g = fun_ext (ended-run show g)

  run_contract-lenient :
      (i : Instance M) (n : ℕ) → run_contract {P = P} (lenient_instance i) n ≡ run_contract i n
  unfolding run_contract
  run_contract-lenient i n = rw (run_forgiven crates.show_trap i.invoke_call) refl

  run_and_settle-lenient :
      (action : Action) (params : ActionParams) (n : ℕ) (i : Instance M)
      → run_and_settle {P = P} action params n (lenient_instance i)
        ≡ run_and_settle action params n i
  unfolding run_and_settle
  run_and_settle-lenient action params n i = rw (run_contract-lenient i n) refl

  run_with-lenient :
      (action : Action) (params : ActionParams) (gas : ℕ) (i : Instance M) (r : ImportResolver M)
      → run_with {P = P} action params gas (lenient_instance i, r)
        ≡ run_with action params gas (i, r)
  unfolding run_with
  run_with-lenient action params gas i r = simp (run_and_settle-lenient)

module _ {S A B C : Type 0} where
  -- A conversion of a found value, before the rest.
  lifted-and_then :
      (r : Outcome A) (f : A → B) (k : B → Exec S C)
      → ◌≡◌ {A = Exec S C} (lift (and_then r (λ a. ok (f a))) >>= k) (lift r >>= λ a. k (f a))
  unfolding ◌>>=◌ lift
  lifted-and_then (ok a) f k = refl
  lifted-and_then (err e) f k = refl
  lifted-and_then panicked f k = refl

and_then-and_then :
    {A B C : Type 0} (r : Outcome A) (f : A → Outcome B) (g : B → Outcome C)
    → and_then (and_then r f) g ≡ and_then r (λ a. and_then (f a) g)
and_then-and_then (ok a) f g = refl
and_then-and_then (err e) f g = refl
and_then-and_then panicked f g = refl

convert-lenient_result :
    {M : Type 0} (f : WasmiError → Error) (r : WasmiError ⊎ (Instance M × ImportResolver M))
    → convert f (lenient_result r)
      ≡ and_then (convert f r) λ found. ok (lenient_instance found.0, found.1)
convert-lenient_result f (inl e) = refl
convert-lenient_result f (inr (i, r)) = refl

module _ (Code Loaded M : Type 0) ⦃crates : Crates⦄ ⦃tools : WasmTools Code⦄
    (interpreter : Interpreter Code Loaded M) where
  instantiate-lenient :
      (params : ActionParams) (costs : WasmCosts)
      → instantiate Code Loaded M ⦃interpreter = lenient interpreter⦄ params costs
        ≡ and_then
            (instantiate Code Loaded M ⦃interpreter = interpreter⦄ params costs)
            λ found. ok (lenient_instance found.0, found.1)
  unfolding instantiate
  instantiate-lenient params costs = simp (and_then-and_then, convert-lenient_result)

module _ (Code Loaded M : Type 0) {P : Type 0} ⦃api : Provider P⦄ ⦃crates : Crates⦄
    ⦃wasmi : Wasmi M⦄ ⦃tools : WasmTools Code⦄ (interpreter : Interpreter Code Loaded M) where
  run_code-lenient :
      (action : Action) (params : ActionParams)
      → ◌≡◌ {A = Exec P ResultData}
          (run_code Code Loaded M ⦃interpreter = lenient interpreter⦄ action params)
          (run_code Code Loaded M ⦃interpreter = interpreter⦄ action params)
  unfolding run_code
  run_code-lenient action params =
      simp (instantiate-lenient Code Loaded M interpreter, lifted-and_then, run_with-lenient)

  -- A transaction ends and writes as if no contract's `call` ever failed by an error of the
  -- interpreter's own (an unreachable instruction, a memory fault, a stack overflow, a missing
  -- export): each such end is a normal one, whatever the contract did before. Only the errors of
  -- host functions count as failures of `call`.
  pub execute-lenient :
      (transaction : Transaction) (p : P)
      → execute Code Loaded M ⦃interpreter = lenient interpreter⦄ transaction p
        ≡ execute Code Loaded M ⦃interpreter = interpreter⦄ transaction p
  unfolding execute
  execute-lenient transaction p = simp (run_code-lenient)
