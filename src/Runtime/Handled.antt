-- ===== src/Runtime/Handled.antt =====
-- Which imports durian/src/env.rs offers, and what durian/src/runtime.rs does at a call of each.
use durian.Base.{
  ◌≡◌, ◌∙◌, ap, refl, inl, inr, none, some, Option, Option-cases, Bool-cases, false, String, List,
  [], ◌∷◌, arith, if◌then◌else◌,
}
use text.Mathlib.Text.{◌==◌ as str_eq}
use text.Mathlib.TextEquality.{eq_iff}
use durian.Exec.{panicked, lift, Exec}
use durian.Crates.{Crates, Wasmi, RuntimeArgs, RuntimeValue}
use durian.Provider.{Provider}
use durian.Env.{FuncRef, ImportResolver, find_import, import_table, resolve_func}
use durian.Runtime.{Runtime}
use durian.Runtime.Storage.{storage_read, storage_write}
use durian.Runtime.Output.{ret, gas, panic, debug, elog}
use durian.Runtime.Calls.{ccall, create, suicide}
use durian.Runtime.Queries.{
  input_length, fetch_input, value, block_hash, block_number, block_author, difficulty, gaslimit,
  timestamp, gasleft, address, sender, origin,
}
use durian.Runtime.Dispatch.{without_value, with_value, invoke_index}

abbrev pub look_up : {A : Type 0} → String → List (String × A) → Option A
look_up name [] = none
look_up name ((n, a) ∷ rest) = if str_eq name n then some a else look_up name rest

module _ {M : Type 0} where
  resolve_func-found :
      (r : ImportResolver M) (name : String) {f g : FuncRef}
      → find_import name import_table ≡ some g
      → resolve_func r name ≡ inr f
      → g ≡ f
  unfolding resolve_func
  resolve_func-found r name found h = ground arith

module _ (P M : Type 0) ⦃api : Provider P⦄ ⦃crates : Crates⦄ ⦃wasmi : Wasmi M⦄ where
  -- The two that are offered only where the costs switch them on.
  abbrev optional_functions : List (String × Exec (Runtime P M) (Option RuntimeValue))
  optional_functions = ("create2", lift panicked) ∷ ("gasleft", with_value gasleft) ∷ []

  -- What a contract gets under each name, written by name and without a number: the host function,
  -- or a panic of the host where there is none.
  abbrev pub host_functions : RuntimeArgs → List (String × Exec (Runtime P M) (Option RuntimeValue))
  host_functions args =
      ("storage_read", without_value (storage_read args))
      ∷ ("storage_write", without_value (storage_write args))
      ∷ ("ret", without_value (ret args))
      ∷ ("gas", without_value (gas args))
      ∷ ("input_length", with_value input_length)
      ∷ ("fetch_input", without_value (fetch_input args))
      ∷ ("panic", without_value (panic args))
      ∷ ("debug", without_value (debug args))
      ∷ ("ccall", with_value (ccall args))
      ∷ ("dcall", lift panicked)
      ∷ ("scall", lift panicked)
      ∷ ("value", without_value (value args))
      ∷ ("create", with_value (create args))
      ∷ ("suicide", without_value (suicide args))
      ∷ ("block_hash", without_value (block_hash args))
      ∷ ("blocknumber", with_value block_number)
      ∷ ("coinbase", without_value (block_author args))
      ∷ ("difficulty", without_value (difficulty args))
      ∷ ("gaslimit", without_value (gaslimit args))
      ∷ ("timestamp", with_value timestamp)
      ∷ ("address", without_value (address args))
      ∷ ("sender", without_value (sender args))
      ∷ ("origin", without_value (origin args))
      ∷ ("elog", without_value (elog args))
      ∷ optional_functions

  -- The names of a table, each with what `invoke_index` does at its number.
  abbrev called :
      RuntimeArgs
      → List (String × FuncRef)
      → List (String × Exec (Runtime P M) (Option RuntimeValue))
  called args [] = optional_functions
  called args ((n, f) ∷ t) = (n, invoke_index f.index args) ∷ called args t

  host_functions-called : (args : RuntimeArgs) → host_functions args ≡ called args import_table
  unfolding import_table invoke_index
  host_functions-called args = refl

  look_up-found :
      (args : RuntimeArgs) (name : String) (t : List (String × FuncRef)) {f : FuncRef}
      → find_import name t ≡ some f
      → look_up name (called args t) ≡ some (invoke_index f.index args)
  unfolding find_import
  look_up-found args name [] e = cc
  look_up-found args name ((n, g) ∷ t) {f} e = ground (arith, look_up-found args name t {f = f})

  look_up-missing :
      (args : RuntimeArgs) (name : String) (t : List (String × FuncRef))
      → find_import name t ≡ none
      → look_up name (called args t) ≡ look_up name optional_functions
  unfolding find_import
  look_up-missing args name [] e = refl
  look_up-missing args name ((n, g) ∷ t) e = ground (arith, look_up-missing args name t)

  resolve_func-missing :
      (r : ImportResolver M) (name : String) (args : RuntimeArgs) {f : FuncRef}
      → find_import name import_table ≡ none
      → resolve_func r name ≡ inr f
      → look_up name optional_functions ≡ some (invoke_index f.index args)
  unfolding resolve_func invoke_index
  resolve_func-missing r name args missing h = elim (Bool-cases (str_eq name "create2")) [
    | inl same ↦
        let other : str_eq name "gasleft" ≡ false = rw ((eq_iff name "create2").0 same) refl in
        ground arith
    | inr differs ↦ ground arith
  ]

  -- A contract that imports a function and calls it gets, under every name that the resolver offers,
  -- the host function of that name; but `dcall` and `scall`, and `create2` where the costs switch it
  -- on, make the host panic.
  pub invoke_index-resolve_func :
      (r : ImportResolver M) (name : String) (args : RuntimeArgs) {f : FuncRef}
      → resolve_func r name ≡ inr f
      → look_up name (host_functions args) ≡ some (invoke_index f.index args)
  invoke_index-resolve_func r name args {f} h =
      ap (look_up name) (host_functions-called args)
      ∙ elim (Option-cases (find_import name import_table)) [
        | inl missing ↦
            rw (look_up-missing args name import_table missing)
              (resolve_func-missing r name args missing h)
        | inr (g, found) ↦
            rw (← resolve_func-found r name found h) (look_up-found args name import_table found)
      ]
