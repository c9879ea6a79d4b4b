-- ===== src/Cli.antt =====
-- examples/cli/src/main.rs: a session on a new blockchain that deploys a token contract, transfers
-- to bob, and asks for the total supply and for bob's balance. The code is the contents of the file
-- that the program reads, and `clock` gives the times of the blocks in the order of their commits.
pub mod Growth
use durian.Base.{ℕ, [], ◌∷◌, ◌++◌, Bytes, codes, replicate}
use durian.Exec.{Exec, unwrapped, query, pure, ◌>>=◌, ◌>>◌}
use durian.Types.{Address, zero_hash}
use durian.Crates.{Crates, Wasmi}
use durian.Parser.{WasmTools}
use durian.Interpreter.{Interpreter}
use durian.Transaction.{Transaction, make_create, make_call}
use durian.Execute.{ResultData, execute}
use durian.Blockchain.{
  Blockchain, ChainCrates, commit, inc_nonce, add_transactions, address_from_alias, chain_provider,
}

-- Arguments of the token contract: `params1`, `params2` .. `params4`.
abbrev pub deploy_params : Bytes
deploy_params = replicate 32 255

abbrev pub transfer_params : Address → Bytes
transfer_params to = (169 ∷ 5 ∷ 156 ∷ 187 ∷ replicate 12 0) ++ to ++ (0 ∷ 0 ∷ 0 ∷ replicate 29 255)

abbrev pub total_supply_params : Bytes
total_supply_params = 24 ∷ 22 ∷ 13 ∷ 221 ∷ []

abbrev pub balance_of_params : Address → Bytes
balance_of_params owner = (112 ∷ 160 ∷ 130 ∷ 49 ∷ replicate 12 0) ++ owner

module _ (Code Loaded M : Type 0) ⦃chain_crates : ChainCrates⦄ ⦃crates : Crates⦄ ⦃wasmi : Wasmi M⦄
    ⦃tools : WasmTools Code⦄ ⦃interpreter : Interpreter Code Loaded M⦄ where
  -- `execute`, unwrapped, and what is recorded of it: the sender's nonce, a block, the transaction.
  unfoldable pub transact : Bytes → Transaction → ℕ → Exec Blockchain ResultData
  transact alias tx now = do
    ret ← unwrapped (execute Code Loaded M tx)
    inc_nonce alias
    commit now
    hash ← add_transactions tx ret
    pure ret

  unfoldable pub session : Bytes → (ℕ → ℕ) → Exec Blockchain Unit
  session code clock = do
    commit (clock 0)
    sender1 ← query (address_from_alias (codes "alice"))
    ret1 ←
        transact (codes "alice") (make_create sender1 0 1000000 0 code deploy_params zero_hash)
          (clock 1)
    to ← query (address_from_alias (codes "bob"))
    sender2 ← query (address_from_alias (codes "alice"))
    ret2 ←
        transact (codes "alice") (make_call sender2 ret1.contract 0 1000000 0 (transfer_params to))
          (clock 2)
    sender3 ← query (address_from_alias (codes "alice"))
    ret3 ←
        transact (codes "alice") (make_call sender3 ret1.contract 0 1000000 0 total_supply_params)
          (clock 3)
    owner ← query (address_from_alias (codes "bob"))
    sender4 ← query (address_from_alias (codes "bob"))
    ret4 ←
        transact (codes "bob")
          (make_call sender4 ret1.contract 0 1000000 0 (balance_of_params owner)) (clock 4)
    pure tt
