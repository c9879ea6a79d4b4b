-- ===== src/Interpreter/Twins.antt =====
-- Runs of a contract (Interpreter.antt) over two providers that cannot be told apart.
use durian.Base.{Option, ◌≡◌, refl}
use durian.Exec.{Outcome, ok, err, panicked, Exec}
use durian.Exec.Same.{Same}
use durian.Crates.{Crates, Wasmi, RuntimeValue, FillsBuffers}
use durian.Provider.{Provider}
use durian.Provider.Twins.{AreTwins}
use durian.Runtime.{Runtime}
use durian.Runtime.Dispatch.{invoke_index}
use durian.Runtime.Twins.{IsSizedRun}
use durian.Runtime.Twins.Handlers.{MayCall, invoke_index-Same}
use durian.Interpreter.{Guest, InvokeResult, resume, run}

-- A contract that asks for the block only where `AsksBlock` holds.
unfoldable pub MayRun : {M : Type 0} → Type 0 → Guest M → Type 0
MayRun AsksBlock (Guest.finish r) = Unit
MayRun {M} AsksBlock (Guest.touch write rest) = (m : M) → MayRun AsksBlock (rest m)
MayRun AsksBlock (Guest.call index args rest) =
    MayCall AsksBlock index × ((v : Option RuntimeValue) → MayRun AsksBlock (rest v))

-- Every contract, where the block may be asked for.
pub MayRun-any : {M : Type 0} (g : Guest M) → MayRun Unit g
unfolding MayRun
MayRun-any (Guest.finish r) = tt
MayRun-any (Guest.touch write rest) = λ m. MayRun-any (rest m)
MayRun-any (Guest.call index args rest) = (
  record {
    block_hash = λ e. tt;
    block_number = λ e. tt;
    block_author = λ e. tt;
    difficulty = λ e. tt;
    gaslimit = λ e. tt;
    timestamp = λ e. tt;
  },
  λ v. MayRun-any (rest v),
)

module _ {P M Updates : Type 0} {IsValid : P → Type 0} where
  resume_agrees :
      (r : Outcome (Option RuntimeValue)) (t : Runtime P M)
      (k l : Option RuntimeValue → Exec (Runtime P M) InvokeResult)
      → IsSizedRun M Updates IsValid t
      → ((v : Option RuntimeValue) → (k v t ≡ l v t) × IsSizedRun M Updates IsValid (l v t).1)
      → (resume (r, t) k ≡ resume (r, t) l) × IsSizedRun M Updates IsValid (resume (r, t) l).1
  resume_agrees (ok v) t k l h e = e v
  resume_agrees (err e') t k l h e = (refl, h)
  resume_agrees panicked t k l h e = (refl, h)

module _ {P M : Type 0} (api twin : Provider P) {IsValid : P → Type 0} {Updates AsksBlock : Type 0}
    (twins : AreTwins api twin IsValid Updates AsksBlock) ⦃crates : Crates⦄ ⦃wasmi : Wasmi M⦄
    (fills : FillsBuffers wasmi) where
  run_agrees :
      (g : Guest M) (s : Runtime P M)
      → MayRun AsksBlock g
      → IsSizedRun M Updates IsValid s
      → (run ⦃api = api⦄ g s ≡ run ⦃api = twin⦄ g s)
        × IsSizedRun M Updates IsValid (run ⦃api = twin⦄ g s).1
  unfolding run MayRun
  run_agrees (Guest.finish r) s may h = (refl, h)
  run_agrees (Guest.touch write rest) s may h =
      run_agrees (rest (write s.memory)) (record s { memory = write s.memory })
        (may (write s.memory)) (record { state = h.state; address = h.address })
  run_agrees (Guest.call index args rest) s (may, more) h =
      let step = (invoke_index-Same api twin twins fills index args may).at s h in
      rw step.0 (
        resume_agrees (invoke_index ⦃api = twin⦄ index args s).0
          (invoke_index ⦃api = twin⦄ index args s).1 (λ v. run ⦃api = api⦄ (rest v))
          (λ v. run ⦃api = twin⦄ (rest v)) step.1
          (λ v. run_agrees (rest v) (invoke_index ⦃api = twin⦄ index args s).1 (more v) step.1))

  -- A run of any contract does the same over both.
  pub run-Same :
      (g : Guest M)
      → MayRun AsksBlock g
      → Same (IsSizedRun M Updates IsValid) (run ⦃api = api⦄ g) (run ⦃api = twin⦄ g)
  run-Same g may = record { at = λ s h. run_agrees g s may h }
