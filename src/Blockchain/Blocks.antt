-- ===== src/Blockchain/Blocks.antt =====
-- The blocks of examples/blockchain/src/blockchain.rs: the chain that their numbers and hashes form.
use durian.Base.{
  ℕ, zero, suc, ◌+◌, ◌≡◌, ◌≢◌, refl, sym, ◌∙◌, ap, some, List, [], ◌∷◌, ◌++◌, arith, length,
  get_elem?,
}
use mathlib.Core.Path.{subst}
use durian.Exec.{ok, ◌>>=◌, and_then, unwrap_option}
use durian.Types.{Address, H256, zero_hash}
use durian.Blockchain.{
  Block, Blockchain, ChainCrates, last?, block_hash, commit, block_hash_at, block_number,
  latest_block_hash, new_blockchain,
}

module _ ⦃crates : ChainCrates⦄ where
  -- The blocks from number `num` on, after one with the hash `prev`.
  abbrev AreLinked : ℕ → H256 → List Block → Type 0
  AreLinked num prev [] = Unit
  AreLinked num prev (b ∷ r) =
      (b.num ≡ num) × (b.prev ≡ prev) × AreLinked (suc num) (block_hash b) r

  pub record IsChain (bc : Blockchain) : Type 0 where
    pub started : bc.blocks ≢ []
    pub linked : AreLinked 0 zero_hash bc.blocks

  -- The block that comes after these.
  abbrev next : ℕ → H256 → ℕ → List Block → Block
  next num prev now [] = record { num = num; prev = prev; time = now }
  next num prev now (b ∷ r) = next (suc num) (block_hash b) now r

  AreLinked-next :
      (num : ℕ) (prev : H256) (now : ℕ) (bs : List Block)
      → AreLinked num prev bs
      → AreLinked num prev (bs ++ next num prev now bs ∷ [])
  AreLinked-next num prev now [] h = (refl, refl, tt)
  AreLinked-next num prev now (b ∷ r) (n, p, h) =
      (n, p, AreLinked-next (suc num) (block_hash b) now r h)

  next-last :
      (num : ℕ) (prev : H256) (now : ℕ) (bs : List Block) (b : Block)
      → last? bs ≡ some b
      → next num prev now bs ≡ record { num = num + length bs; prev = block_hash b; time = now }
  next-last num prev now [] b h = absurd (ground arith)
  next-last num prev now (c ∷ []) b h = ground arith
  next-last num prev now (c ∷ d ∷ r) b h =
      grind (arith, next-last (suc num) (block_hash c) now (d ∷ r) b h)

  pub last?-nonempty : (bs : List Block) → bs ≢ [] → (b : Block) × (last? bs ≡ some b)
  last?-nonempty [] h = absurd (h refl)
  last?-nonempty (b ∷ []) h = (b, refl)
  last?-nonempty (b ∷ c ∷ r) h = last?-nonempty (c ∷ r) λ e. absurd (ground arith)

  block_number-last :
      (num : ℕ) (prev : H256) (bs : List Block) (b : Block)
      → AreLinked num prev bs
      → last? bs ≡ some b
      → num + length bs ≡ suc b.num
  block_number-last num prev [] b h e = absurd (ground arith)
  block_number-last num prev (c ∷ []) b (n, p, h) e = ground arith
  block_number-last num prev (c ∷ d ∷ r) b (n, p, h) e =
      omega (arith, block_number-last (suc num) (block_hash c) (d ∷ r) b h e)

  last?-append : (bs : List Block) (b : Block) → last? (bs ++ b ∷ []) ≡ some b
  last?-append [] b = refl
  last?-append (c ∷ []) b = refl
  last?-append (c ∷ d ∷ r) b = last?-append (d ∷ r) b

  get_elem?-last :
      (bs more : List Block) (b : Block)
      → last? bs ≡ some b
      → (n : ℕ) → suc n ≡ length bs
      → get_elem? (bs ++ more) n ≡ some b
  get_elem?-last [] more b h n e = absurd (ground arith)
  get_elem?-last (c ∷ []) more b h zero e = h
  get_elem?-last (c ∷ []) more b h (suc n) e = absurd (omega arith)
  get_elem?-last (c ∷ d ∷ r) more b h zero e = absurd (omega arith)
  get_elem?-last (c ∷ d ∷ r) more b h (suc n) e = get_elem?-last (d ∷ r) more b h n (omega arith)

  pub commit-last :
      (now : ℕ) (bc : Blockchain) (b : Block)
      → last? bc.blocks ≡ some b
      → commit now bc ≡ (
        ok tt,
        record bc {
          blocks =
              bc.blocks ++ record { num = length bc.blocks; prev = block_hash b; time = now } ∷ [];
        },
      )
  unfolding commit ◌>>=◌
  commit-last now bc b h = rw h refl

  append-nonempty : (bs : List Block) (b : Block) → bs ++ b ∷ [] ≢ []
  append-nonempty [] b h = cc
  append-nonempty (c ∷ r) b h = cc

  prev-linked :
      (n num : ℕ) (prev : H256) (bs : List Block) (b : Block)
      → AreLinked num prev bs
      → get_elem? bs (suc n) ≡ some b
      → and_then (unwrap_option (get_elem? bs n)) (λ c. ok (block_hash c)) ≡ ok b.prev
  prev-linked n num prev [] b h e = absurd cc
  prev-linked n num prev (c ∷ []) b h e = absurd (ground arith)
  prev-linked zero num prev (c ∷ d ∷ r) b (_, _, (_, p, _)) e = ground arith
  prev-linked (suc n) num prev (c ∷ d ∷ r) b (_, _, h) e =
      prev-linked n (suc num) (block_hash c) (d ∷ r) b h e

  abbrev appended : ℕ → List Block → Block → List Block
  appended now bs b = bs ++ record { num = length bs; prev = block_hash b; time = now } ∷ []

  appended-AreLinked :
      (now : ℕ) (bs : List Block) (b : Block)
      → AreLinked 0 zero_hash bs
      → last? bs ≡ some b
      → AreLinked 0 zero_hash (appended now bs b)
  appended-AreLinked now bs b h e =
      let start : 0 + length bs ≡ length bs = omega arith in
      let new : next 0 zero_hash now bs
          ≡ record { num = length bs; prev = block_hash b; time = now } =
        next-last 0 zero_hash now bs b e
        ∙ ap (λ n. record { num = n; prev = block_hash b; time = now }) start in
      subst (λ c. AreLinked 0 zero_hash (bs ++ c ∷ [])) new (AreLinked-next 0 zero_hash now bs h)

  block_number-of_last :
      (bc : Blockchain) (b : Block) → last? bc.blocks ≡ some b → block_number bc ≡ b.num
  unfolding block_number
  block_number-of_last bc b e = rw (block_number, e) refl

  pub latest_block_hash-of_last :
      (bc : Blockchain) (b : Block)
      → last? bc.blocks ≡ some b
      → latest_block_hash bc ≡ ok (block_hash b)
  unfolding latest_block_hash
  latest_block_hash-of_last bc b e = rw e refl

  block_hash_at-of_elem :
      (n : ℕ) (bc : Blockchain) (b : Block)
      → get_elem? bc.blocks n ≡ some b
      → block_hash_at n bc ≡ ok (block_hash b)
  unfolding block_hash_at
  block_hash_at-of_elem n bc b e = rw e refl

  -- On a chain `commit` never panics: it appends one block, which leaves a chain, whose number is one
  -- more than the last block's and through which the last block's hash is found under its number.
  pub commit-IsChain :
      (now : ℕ) (bc : Blockchain)
      → IsChain bc
      → let bc' = (commit now bc).1 in
        ((commit now bc).0 ≡ ok tt)
        × IsChain bc'
        × (block_number bc' ≡ block_number bc + 1)
        × (block_hash_at (block_number bc) bc' ≡ latest_block_hash bc)
  commit-IsChain now bc h =
      let (b, e) = last?-nonempty bc.blocks h.started in
      let count : length bc.blocks ≡ suc b.num =
        omega (arith, block_number-last 0 zero_hash bc.blocks b h.linked e) in
      let bc' : Blockchain = record bc { blocks = appended now bc.blocks b } in
      let number : block_number bc ≡ b.num = block_number-of_last bc b e in
      rw (commit-last now bc b e, number, latest_block_hash-of_last bc b e)
        (
          refl,
          record {
            started = λ q. append-nonempty bc.blocks _ q;
            linked = appended-AreLinked now bc.blocks b h.linked e;
          },
          omega (arith, block_number-of_last bc' _ (last?-append bc.blocks _), count),
          block_hash_at-of_elem b.num bc' b (get_elem?-last bc.blocks _ b e b.num (sym count)),
        )

  -- The hash that a block of a chain holds is the one found under the number before its own.
  pub block_hash_at-prev :
      (n : ℕ) (bc : Blockchain) (b : Block)
      → IsChain bc
      → get_elem? bc.blocks (suc n) ≡ some b
      → block_hash_at n bc ≡ ok b.prev
  unfolding block_hash_at
  block_hash_at-prev n bc b h e = prev-linked n 0 zero_hash bc.blocks b h.linked e

  -- A new blockchain has one block, which starts a chain.
  pub new_blockchain-IsChain :
      (now : ℕ) (alice bob carol dave naga : Address)
      → IsChain (new_blockchain now alice bob carol dave naga)
  unfolding new_blockchain
  new_blockchain-IsChain now alice bob carol dave naga = record {
    started = λ e. cc;
    linked = (refl, refl, tt);
  }
