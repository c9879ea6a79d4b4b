-- ===== src/Execute/View.antt =====
-- The run of a contract in durian/src/execute.rs on two states that show the same, and on a cache that
-- has been read before.
use durian.Base.{ℕ, ◌≡◌, refl, List, [], ◌∷◌, inl, inr}
use durian.Error.{WasmiError}
use durian.Exec.Related.{Related}
use durian.Types.{Address, H256}
use durian.Crates.{Crates, Wasmi}
use durian.Provider.{Provider}
use durian.State
use durian.State.{State}
use durian.State.View.Same.{
  SameView, SameView-refl, SameView-sym, SameView-trans, SameView-storage_at,
}
use durian.State.View.{value_at}
use durian.Runtime.{Runtime}
use durian.Runtime.View.{SameRun, on, view_rules}
use durian.Interpreter.{Instance, InvokeResult}
use durian.Interpreter.View.{run-Related}
use durian.Execute.{start_result, run_contract}

module _ {P Q M : Type 0} (api : Provider P) (other : Provider Q) ⦃crates : Crates⦄
    ⦃wasmi : Wasmi M⦄ where
  start_result-Related :
      (r : InvokeResult)
      → Related (SameRun M api other) (start_result ⦃api = api⦄ r) (start_result ⦃api = other⦄ r)
  unfolding start_result
  start_result-Related (inl (WasmiError.trap k)) = search view_rules
  start_result-Related (inr v) = search view_rules
  start_result-Related _ = search view_rules

  run_contract-Related :
      (i : Instance M) (n : ℕ)
      → Related
          (SameRun M api other)
          (run_contract ⦃api = api⦄ i n)
          (run_contract ⦃api = other⦄ i n)
  unfolding run_contract
  run_contract-Related i n =
      search (view_rules, run-Related api other, start_result-Related) depth 20

  -- What a contract does to its caller depends on no more of a state than it shows: over any two
  -- providers and with any two caches that show the same slots, balances and block, a run has the
  -- same outcome, uses the same gas, leaves the same memory, result and log entries, and leaves states
  -- that show the same again.
  pub run_contract-SameView :
      (i : Instance M) (n : ℕ) (s : Runtime P M) (u : State Q)
      → SameView api other s.state u
      → let r = run_contract ⦃api = api⦄ i n s in
        let r' = run_contract ⦃api = other⦄ i n (on u s) in
        (r.0 ≡ r'.0) × (r'.1 ≡ on r'.1.state r.1) × SameView api other r.1.state r'.1.state
  run_contract-SameView i n s u h =
      let (same, after) =
        (run_contract-Related i n).at s (on u s) (record { rest = refl; view = h }) in
      (same, after.rest, after.view)

-- The state after some slots have been read, whatever the reads returned.
pub read_before : {P : Type 0} → ⦃api : Provider P⦄ → List (Address × H256) → State P → State P
read_before [] s = s
read_before ((a, k) ∷ slots) s = read_before slots (State.storage_at a k s).1

module _ {P : Type 0} ⦃api : Provider P⦄ where
  pub SameView-read_before :
      (slots : List (Address × H256)) (s : State P) → SameView api api s (read_before slots s)
  unfolding read_before
  SameView-read_before [] s = SameView-refl s
  SameView-read_before ((a, k) ∷ slots) s =
      SameView-trans (SameView-sym (SameView-storage_at a k s))
        (SameView-read_before slots (State.storage_at a k s).1)

module _ {P M : Type 0} ⦃api : Provider P⦄ ⦃crates : Crates⦄ ⦃wasmi : Wasmi M⦄ where
  -- The cache makes no difference to a contract: whatever slots of whatever accounts have been read
  -- before, and may be cached or not, a run has the same outcome, uses the same gas, and leaves the
  -- same memory, result, log entries and values of the slots.
  pub run_contract-read_before :
      (i : Instance M) (n : ℕ) (s : Runtime P M) (slots : List (Address × H256))
      → let r = run_contract i n s in
        let r' = run_contract i n (on (read_before slots s.state) s) in
        (r.0 ≡ r'.0)
        × (r'.1 ≡ on r'.1.state r.1)
        × ((a : Address) (k : H256) → value_at a k r.1.state ≡ value_at a k r'.1.state)
  run_contract-read_before i n s slots =
      let (same, rest, view) =
        run_contract-SameView api api i n s (read_before slots s.state)
          (SameView-read_before slots s.state) in
      (same, rest, view.value)
