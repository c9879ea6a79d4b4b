-- ===== src/Interpreter/View.antt =====
-- Runs of a contract (Interpreter.antt) on two states that show the same.
use durian.Base.{Option, ◌≡◌, refl}
use durian.Exec.{Outcome, ok, err, panicked, Exec}
use durian.Exec.Related.{Related}
use durian.Crates.{Crates, Wasmi, RuntimeValue}
use durian.Provider.{Provider}
use durian.Runtime.{Runtime}
use durian.Runtime.Dispatch.{invoke_index}
use durian.Runtime.View.{SameRun, SameRun-on, on}
use durian.Runtime.View.Handlers.{invoke_index-Related}
use durian.Interpreter.{Guest, InvokeResult, resume, run}

module _ {P Q M : Type 0} (api : Provider P) (other : Provider Q) where
  -- What the two runs have become.
  abbrev AreAlike : Outcome InvokeResult × Runtime P M → Outcome InvokeResult × Runtime Q M → Type 0
  AreAlike r r' = (r.0 ≡ r'.0) × SameRun M api other r.1 r'.1

  resume-alike :
      (r : Outcome (Option RuntimeValue)) (s : Runtime P M) (t : Runtime Q M)
      (k : Option RuntimeValue → Exec (Runtime P M) InvokeResult)
      (l : Option RuntimeValue → Exec (Runtime Q M) InvokeResult)
      → SameRun M api other s t
      → ((v : Option RuntimeValue) → AreAlike (k v s) (l v t))
      → AreAlike (resume (r, s) k) (resume (r, t) l)
  resume-alike (ok v) s t k l h e = e v
  resume-alike (err er) s t k l h e = (refl, h)
  resume-alike panicked s t k l h e = (refl, h)

module _ {P Q M : Type 0} (api : Provider P) (other : Provider Q) ⦃crates : Crates⦄
    ⦃wasmi : Wasmi M⦄ where
  -- A contract cannot tell two states that show the same: a run of it ends the same, with the same
  -- gas, memory, result and log entries, and in states that show the same.
  pub run-Related :
      (g : Guest M) → Related (SameRun M api other) (run ⦃api = api⦄ g) (run ⦃api = other⦄ g)
  unfolding run
  run-Related (Guest.finish r) = record { at = λ s t h. (refl, h) }
  run-Related (Guest.touch write rest) = SameRun-on λ s u h.
      let m = write s.memory in
      (run-Related (rest m)).at (record s { memory = m }) (on u (record s { memory = m }))
        (record { rest = refl; view = h })
  run-Related (Guest.call index args rest) = record {
    at = λ s t h.
        let step = (invoke_index-Related api other index args).at s t h in
        rw step.0 (
          resume-alike api other (invoke_index ⦃api = other⦄ index args t).0
            (invoke_index ⦃api = api⦄ index args s).1 (invoke_index ⦃api = other⦄ index args t).1
            (λ v. run ⦃api = api⦄ (rest v)) (λ v. run ⦃api = other⦄ (rest v)) step.1
            (λ v.
              (run-Related (rest v)).at (invoke_index ⦃api = api⦄ index args s).1
                (invoke_index ⦃api = other⦄ index args t).1 step.1));
  }
