-- ===== src/Blockchain/Growth.antt =====
-- How many blocks a computation over examples/blockchain/src/blockchain.rs appends where it returns.
use durian.Base.{
  ℕ, suc, ◌+◌, ◌≡◌, ap, arith, Bytes, length, length-append, inl, inr, Option-cases, [], ◌∷◌,
}
use durian.Exec.{Outcome, Exec, ok, unwrapped, ◌>>=◌, query, pure}
use durian.Exec.Bind.{>>=-eq-ok, >>=-after, unwrapped-eq-ok}
use durian.Crates.{Crates, Wasmi}
use durian.Parser.{WasmTools}
use durian.Interpreter.{Interpreter}
use durian.Transaction.{Transaction}
use durian.Execute.{ResultData, execute}
use durian.Blockchain.{
  Blockchain, ChainCrates, last?, commit, add_transactions, inc_nonce, chain_provider, block_hash,
}
use durian.Blockchain.Blocks.{commit-last}
use durian.Blockchain.Records.{execute-keeps_records}

pub record Appends {A : Type 0} (k : ℕ) (m : Exec Blockchain A) : Type 0 where
  pub counted :
      (s : Blockchain) {a : A} → (m s).0 ≡ ok a → length (m s).1.blocks ≡ length s.blocks + k

module _ {A : Type 0} where
  pub Appends-query : (f : Blockchain → Outcome A) → Appends 0 (query f)
  unfolding query
  Appends-query f = record { counted = λ s e. omega arith }

  pub Appends-pure : (a : A) → Appends 0 (pure a)
  unfolding pure
  Appends-pure a = record { counted = λ s e. omega arith }

  pub Appends-unwrapped : (k : ℕ) (m : Exec Blockchain A) → Appends k m → Appends k (unwrapped m)
  unfolding unwrapped
  Appends-unwrapped k m h = record { counted = λ s e. h.counted s (unwrapped-eq-ok m s e) }

module _ {A B : Type 0} where
  Appends-bind :
      (j k n : ℕ) (m : Exec Blockchain A) (f : A → Exec Blockchain B)
      → j + k ≡ n
      → Appends j m
      → ((a : A) → Appends k (f a))
      → Appends n (m >>= f)
  Appends-bind j k n m f sum hm hf = record {
    counted = λ s e.
        let (a, e1, e2) = >>=-eq-ok m f s e in
        rw (>>=-after m f s e1) (omega (arith, sum, hm.counted s e1, (hf a).counted (m s).1 e2));
  }

  pub Appends-after :
      (k : ℕ) (m : Exec Blockchain A) (f : A → Exec Blockchain B)
      → Appends 0 m
      → ((a : A) → Appends k (f a))
      → Appends k (m >>= f)
  Appends-after k m f = Appends-bind 0 k k m f (omega arith)

  pub Appends-after_block :
      (k : ℕ) (m : Exec Blockchain A) (f : A → Exec Blockchain B)
      → Appends 1 m
      → ((a : A) → Appends k (f a))
      → Appends (suc k) (m >>= f)
  Appends-after_block k m f = Appends-bind 1 k (suc k) m f (omega arith)

module _ ⦃crates : ChainCrates⦄ where
  pub Appends-commit : (now : ℕ) → Appends 1 (commit now)
  unfolding commit ◌>>=◌
  Appends-commit now = record {
    counted = λ s e. elim (Option-cases (last? s.blocks)) [
      | inl missing ↦ absurd (ground (arith, missing))
      | inr (b, last) ↦ omega (
        arith,
        ap (λ r. length r.1.blocks) (commit-last now s b last),
        length-append s.blocks
            (record { num = length s.blocks; prev = block_hash b; time = now } ∷ []),
      )
    ];
  }

  pub Appends-add_transactions :
      (tx : Transaction) (d : ResultData) → Appends 0 (add_transactions tx d)
  unfolding add_transactions ◌>>=◌
  Appends-add_transactions tx d = record { counted = λ s e. omega arith }

  pub Appends-inc_nonce : (alias : Bytes) → Appends 0 (inc_nonce alias)
  unfolding inc_nonce ◌>>=◌
  Appends-inc_nonce alias = record { counted = λ s e. ground arith }

module _ (Code Loaded M : Type 0) ⦃crates : ChainCrates⦄ ⦃vm_crates : Crates⦄ ⦃wasmi : Wasmi M⦄
    ⦃tools : WasmTools Code⦄ ⦃interpreter : Interpreter Code Loaded M⦄ where
  pub Appends-execute : (transaction : Transaction) → Appends 0 (execute Code Loaded M transaction)
  Appends-execute transaction = record {
    counted = λ s e. omega (arith, ap length (execute-keeps_records Code Loaded M transaction s).0);
  }

pub ruleset appends_rules = (
  Appends-query, Appends-pure, Appends-unwrapped, Appends-after, Appends-after_block,
  Appends-commit, Appends-add_transactions, Appends-inc_nonce, Appends-execute,
)
