-- ===== src/Cli/Growth.antt =====
-- The blocks that the session of examples/cli/src/main.rs leaves.
use durian.Base.{List, ◌++◌, ℕ, ◌+◌, ◌≡◌, Bytes, length}
use durian.Exec.{ok}
use durian.Exec.Steps.{Steps, steps_rules}
use durian.Crates.{Crates, Wasmi}
use durian.Parser.{WasmTools}
use durian.Interpreter.{Interpreter}
use durian.Transaction.{Transaction}
use durian.Blockchain.{Block, Blockchain, ChainCrates}
use durian.Blockchain.Blocks.{IsChain}
use durian.Blockchain.Records.{
  Extends, extends, commit-Extends, add_transactions-Extends, inc_nonce-Extends, execute-Extends,
}
use durian.Blockchain.Growth.{Appends, appends_rules}
use durian.Cli.{transact, session}

module _ (Code Loaded M : Type 0) ⦃chain_crates : ChainCrates⦄ ⦃crates : Crates⦄ ⦃wasmi : Wasmi M⦄
    ⦃tools : WasmTools Code⦄ ⦃interpreter : Interpreter Code Loaded M⦄ where
  transact-Extends :
      (alias : Bytes) (tx : Transaction) (now : ℕ)
      → Steps Extends (transact Code Loaded M alias tx now)
  unfolding transact
  transact-Extends alias tx now =
      search
        (steps_rules, execute-Extends, inc_nonce-Extends, commit-Extends, add_transactions-Extends)
        depth 20

  session-Extends :
      (code : Bytes) (clock : ℕ → ℕ) → Steps Extends (session Code Loaded M code clock)
  unfolding session
  session-Extends code clock = search (steps_rules, transact-Extends, commit-Extends) depth 40

  transact-Appends :
      (alias : Bytes) (tx : Transaction) (now : ℕ) → Appends 1 (transact Code Loaded M alias tx now)
  unfolding transact
  transact-Appends alias tx now = search appends_rules depth 20

  session-Appends : (code : Bytes) (clock : ℕ → ℕ) → Appends 5 (session Code Loaded M code clock)
  unfolding session
  session-Appends code clock = search (appends_rules, transact-Appends) depth 40

  -- Whatever the outcome of the session, no block is taken away or changed, and a chain is left where
  -- it started with one.
  pub session-IsChain :
      (code : Bytes) (clock : ℕ → ℕ) (bc : Blockchain)
      → IsChain bc
      → let bc' = (session Code Loaded M code clock bc).1 in
        IsChain bc' × ((more : List Block) × (bc'.blocks ≡ bc.blocks ++ more))
  session-IsChain code clock bc h =
      let step = (session-Extends code clock).at bc in (step.chain h, (step.more, step.blocks))

  -- A session that returns has appended five blocks.
  pub length-session :
      (code : Bytes) (clock : ℕ → ℕ) (bc : Blockchain)
      → (session Code Loaded M code clock bc).0 ≡ ok tt
      → length (session Code Loaded M code clock bc).1.blocks ≡ length bc.blocks + 5
  length-session code clock bc e = (session-Appends code clock).counted bc e
