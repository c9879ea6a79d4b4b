-- ===== src/Runtime/Twins/Queries.antt =====
-- The host functions of durian/src/runtime.rs that answer from the block, the parameters of the run
-- and the meter, over two providers that cannot be told apart.
use durian.Base.{ℕ, Bytes, refl}
use durian.Exec.{query}
use durian.Exec.Same.{Same, Same-queries, Same-both}
use durian.Crates.{Crates, Wasmi, RuntimeArgs, FillsBuffers}
use durian.Provider.{Provider}
use durian.Provider.Twins.{AreTwins}
use durian.State
use durian.Runtime.{Runtime}
use durian.Runtime.Queries.{
  input_length, fetch_input, return_address_ptr, return_u256_ptr, value, block_hash, block_number,
  block_author, difficulty, gaslimit, timestamp, gasleft, address, sender, origin,
}
use durian.Runtime.Twins.{IsSizedRun, sized_rules}

module _ {P M : Type 0} (api twin : Provider P) {IsValid : P → Type 0} {Updates AsksBlock : Type 0}
    (twins : AreTwins api twin IsValid Updates AsksBlock) ⦃crates : Crates⦄ ⦃wasmi : Wasmi M⦄
    (fills : FillsBuffers wasmi) where
  hash_query-Same :
      AsksBlock
      → (number : ℕ)
      → Same
          (IsSizedRun M Updates IsValid)
          (query (λ (s : Runtime P M). State.block_hash ⦃api = api⦄ number s.state))
          (query (λ s. State.block_hash ⦃api = twin⦄ number s.state))
  unfolding State.block_hash
  hash_query-Same asks number =
      Same-queries _ _ (λ s h. twins.block_hash asks number s.state.provider)

  author_query-Same :
      AsksBlock
      → Same
          (IsSizedRun M Updates IsValid)
          (query (λ (s : Runtime P M). State.block_author ⦃api = api⦄ s.state))
          (query (λ s. State.block_author ⦃api = twin⦄ s.state))
  unfolding State.block_author
  author_query-Same asks = Same-queries _ _ (λ s h. twins.block_author asks s.state.provider)

  difficulty_query-Same :
      AsksBlock
      → Same
          (IsSizedRun M Updates IsValid)
          (query (λ (s : Runtime P M). State.difficulty ⦃api = api⦄ s.state))
          (query (λ s. State.difficulty ⦃api = twin⦄ s.state))
  unfolding State.difficulty
  difficulty_query-Same asks = Same-queries _ _ (λ s h. twins.difficulty asks s.state.provider)

  limit_query-Same :
      AsksBlock
      → Same
          (IsSizedRun M Updates IsValid)
          (query (λ (s : Runtime P M). State.gas_limit ⦃api = api⦄ s.state))
          (query (λ s. State.gas_limit ⦃api = twin⦄ s.state))
  unfolding State.gas_limit
  limit_query-Same asks = Same-queries _ _ (λ s h. twins.gas_limit asks s.state.provider)

  pub fetch_input-Same :
      (args : RuntimeArgs)
      → Same
          (IsSizedRun M Updates IsValid)
          (fetch_input ⦃api = api⦄ args)
          (fetch_input ⦃api = twin⦄ args)
  unfolding fetch_input
  fetch_input-Same args = search sized_rules depth 30

  return_address_ptr-Same :
      (ptr : ℕ) (val : Bytes)
      → Same
          (IsSizedRun M Updates IsValid)
          (return_address_ptr ⦃api = api⦄ ptr val)
          (return_address_ptr ⦃api = twin⦄ ptr val)
  unfolding return_address_ptr
  return_address_ptr-Same ptr val = search sized_rules depth 30

  return_u256_ptr-Same :
      (ptr : ℕ) (val : ℕ)
      → Same
          (IsSizedRun M Updates IsValid)
          (return_u256_ptr ⦃api = api⦄ ptr val)
          (return_u256_ptr ⦃api = twin⦄ ptr val)
  unfolding return_u256_ptr
  return_u256_ptr-Same ptr val = search sized_rules depth 30

  pub value-Same :
      (args : RuntimeArgs)
      → Same (IsSizedRun M Updates IsValid) (value ⦃api = api⦄ args) (value ⦃api = twin⦄ args)
  unfolding value
  value-Same args = search (sized_rules, return_u256_ptr-Same) depth 30

  pub difficulty-Same :
      AsksBlock
      → (args : RuntimeArgs)
      → Same
          (IsSizedRun M Updates IsValid)
          (difficulty ⦃api = api⦄ args)
          (difficulty ⦃api = twin⦄ args)
  unfolding difficulty
  difficulty-Same asks args =
      search (sized_rules, difficulty_query-Same, return_u256_ptr-Same) depth 30

  pub gaslimit-Same :
      AsksBlock
      → (args : RuntimeArgs)
      → Same (IsSizedRun M Updates IsValid) (gaslimit ⦃api = api⦄ args) (gaslimit ⦃api = twin⦄ args)
  unfolding gaslimit
  gaslimit-Same asks args = search (sized_rules, limit_query-Same, return_u256_ptr-Same) depth 30

  pub block_author-Same :
      AsksBlock
      → (args : RuntimeArgs)
      → Same
          (IsSizedRun M Updates IsValid)
          (block_author ⦃api = api⦄ args)
          (block_author ⦃api = twin⦄ args)
  unfolding block_author
  block_author-Same asks args =
      search (sized_rules, author_query-Same, return_address_ptr-Same) depth 30

  pub address-Same :
      (args : RuntimeArgs)
      → Same (IsSizedRun M Updates IsValid) (address ⦃api = api⦄ args) (address ⦃api = twin⦄ args)
  unfolding address
  address-Same args = search (sized_rules, return_address_ptr-Same) depth 30

  pub sender-Same :
      (args : RuntimeArgs)
      → Same (IsSizedRun M Updates IsValid) (sender ⦃api = api⦄ args) (sender ⦃api = twin⦄ args)
  unfolding sender
  sender-Same args = search (sized_rules, return_address_ptr-Same) depth 30

  pub origin-Same :
      (args : RuntimeArgs)
      → Same (IsSizedRun M Updates IsValid) (origin ⦃api = api⦄ args) (origin ⦃api = twin⦄ args)
  unfolding origin
  origin-Same args = search (sized_rules, return_address_ptr-Same) depth 30

  pub block_hash-Same :
      AsksBlock
      → (args : RuntimeArgs)
      → Same
          (IsSizedRun M Updates IsValid)
          (block_hash ⦃api = api⦄ args)
          (block_hash ⦃api = twin⦄ args)
  unfolding block_hash
  block_hash-Same asks args = search (sized_rules, hash_query-Same asks) depth 30

  pub input_length-Same :
      Same (IsSizedRun M Updates IsValid) (input_length ⦃api = api⦄) (input_length ⦃api = twin⦄)
  unfolding input_length
  input_length-Same = search sized_rules depth 30

  pub block_number-Same :
      AsksBlock
      → Same (IsSizedRun M Updates IsValid) (block_number ⦃api = api⦄) (block_number ⦃api = twin⦄)
  unfolding block_number State.block_number
  block_number-Same asks = Same-both _ _ (λ s h. rw (twins.block_number asks s.state.provider) refl)

  pub timestamp-Same :
      AsksBlock
      → Same (IsSizedRun M Updates IsValid) (timestamp ⦃api = api⦄) (timestamp ⦃api = twin⦄)
  unfolding timestamp State.timestamp
  timestamp-Same asks = Same-both _ _ (λ s h. rw (twins.block_number asks s.state.provider) refl)

  pub gasleft-Same :
      Same (IsSizedRun M Updates IsValid) (gasleft ⦃api = api⦄) (gasleft ⦃api = twin⦄)
  unfolding gasleft
  gasleft-Same = search sized_rules depth 30
