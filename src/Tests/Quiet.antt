-- ===== src/Tests/Quiet.antt =====
-- The programs of the fixtures ask for no block.
use durian.Base.{ℕ, zero, suc, ◌≡◌, ◌≢◌, ◌==◌, refl, false, inl, inr, [], ◌∷◌, Bytes}
use durian.Error.{Error}
use durian.Exec.{ok, err, panicked}
use durian.Exec.Bind.{Outcome-cases}
use durian.Types.{ActionParams}
use durian.Env.{
  block_hash_func, block_number_func, block_author_func, difficulty_func, gaslimit_func,
  timestamp_func,
}
use durian.Parser.{payload}
use durian.Interpreter.Twins.{MayRun}
use durian.Runtime.Twins.Handlers.{MayCall}
use durian.Execute.{instantiate}
use durian.Execute.Twins.{MayLoad}
use durian.Tests.Fixtures.{plain_crates, plain_tools, plain_interpreter, program}

no_block :
    (index : ℕ)
    → (index == block_hash_func) ≡ false
    → (index == block_number_func) ≡ false
    → (index == block_author_func) ≡ false
    → (index == difficulty_func) ≡ false
    → (index == gaslimit_func) ≡ false
    → (index == timestamp_func) ≡ false
    → MayCall ⊥ index
no_block index h1 h2 h3 h4 h5 h6 = record {
  block_hash = λ e. cc;
  block_number = λ e. cc;
  block_author = λ e. cc;
  difficulty = λ e. cc;
  gaslimit = λ e. cc;
  timestamp = λ e. cc;
}

program-MayRun : (code : Bytes) → MayRun ⊥ (program code)
unfolding MayRun
program-MayRun [] = tt
program-MayRun (zero ∷ r) = λ m. (
  no_block 10 refl refl refl refl refl refl,
  λ v. (no_block 20 refl refl refl refl refl refl, λ w. tt),
)
program-MayRun (suc zero ∷ r) = λ m. (
  no_block 0 refl refl refl refl refl refl,
  λ v. (no_block 30 refl refl refl refl refl refl, λ w. tt),
)
program-MayRun (suc (suc n) ∷ r) = λ m. (no_block 0 refl refl refl refl refl refl, λ v. tt)

ok_injective : {A : Type 0} {a b : A} → ok a ≡ ok b → a ≡ b
ok_injective e = cc

err-ne-ok : {A : Type 0} {a : A} (e : Error) → err e ≢ ok a
err-ne-ok e h = cc

panicked-ne-ok : {A : Type 0} {a : A} → panicked ≢ ok a
panicked-ne-ok h = cc

pub program-MayLoad : (params : ActionParams) → MayLoad Bytes Bytes Bytes ⊥ params
unfolding instantiate MayRun
program-MayLoad params costs loaded l = elim (Outcome-cases (payload {Code = Bytes} params costs)) [
  | inl (code, e) ↦ rw (← (ok_injective (rw e at l))) (tt, program-MayRun code)
  | inr (inl (er, e)) ↦ absurd (err-ne-ok er (rw e at l))
  | inr (inr e) ↦ absurd (panicked-ne-ok (rw e at l))
]
