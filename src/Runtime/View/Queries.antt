-- ===== src/Runtime/View/Queries.antt =====
-- The host functions of durian/src/runtime.rs that answer from the block, the parameters of the run
-- and the meter, on two states that show the same.
use durian.Base.{ℕ, Bytes, refl}
use durian.Exec.{query}
use durian.Exec.Related.{Related, Related-query, Related-gets}
use durian.Crates.{Crates, Wasmi, RuntimeArgs}
use durian.Provider.{Provider}
use durian.State
use durian.Runtime.{Runtime, gas_left}
use durian.Runtime.Queries.{
  input_length, fetch_input, return_address_ptr, return_u256_ptr, value, block_hash, block_number,
  block_author, difficulty, gaslimit, timestamp, gasleft, address, sender, origin,
}
use durian.Runtime.View.{SameRun, view_rules}

module _ {P Q M : Type 0} (api : Provider P) (other : Provider Q) ⦃crates : Crates⦄
    ⦃wasmi : Wasmi M⦄ where
  hash_query-Related :
      (number : ℕ)
      → Related
          (SameRun M api other)
          (query (λ (s : Runtime P M). State.block_hash ⦃api = api⦄ number s.state))
          (query (λ (t : Runtime Q M). State.block_hash ⦃api = other⦄ number t.state))
  unfolding State.block_hash
  hash_query-Related number = Related-query _ _ (λ s t h. h.view.block.block_hash number)

  author_query-Related :
      Related
        (SameRun M api other)
        (query (λ (s : Runtime P M). State.block_author ⦃api = api⦄ s.state))
        (query (λ (t : Runtime Q M). State.block_author ⦃api = other⦄ t.state))
  unfolding State.block_author
  author_query-Related = Related-query _ _ (λ s t h. h.view.block.block_author)

  difficulty_query-Related :
      Related
        (SameRun M api other)
        (query (λ (s : Runtime P M). State.difficulty ⦃api = api⦄ s.state))
        (query (λ (t : Runtime Q M). State.difficulty ⦃api = other⦄ t.state))
  unfolding State.difficulty
  difficulty_query-Related = Related-query _ _ (λ s t h. h.view.block.difficulty)

  limit_query-Related :
      Related
        (SameRun M api other)
        (query (λ (s : Runtime P M). State.gas_limit ⦃api = api⦄ s.state))
        (query (λ (t : Runtime Q M). State.gas_limit ⦃api = other⦄ t.state))
  unfolding State.gas_limit
  limit_query-Related = Related-query _ _ (λ s t h. h.view.block.gas_limit)

  pub fetch_input-Related :
      (args : RuntimeArgs)
      → Related
          (SameRun M api other)
          (fetch_input ⦃api = api⦄ args)
          (fetch_input ⦃api = other⦄ args)
  unfolding fetch_input
  fetch_input-Related args = search view_rules depth 30

  return_address_ptr-Related :
      (ptr : ℕ) (val : Bytes)
      → Related
          (SameRun M api other)
          (return_address_ptr ⦃api = api⦄ ptr val)
          (return_address_ptr ⦃api = other⦄ ptr val)
  unfolding return_address_ptr
  return_address_ptr-Related ptr val = search view_rules depth 30

  return_u256_ptr-Related :
      (ptr : ℕ) (val : ℕ)
      → Related
          (SameRun M api other)
          (return_u256_ptr ⦃api = api⦄ ptr val)
          (return_u256_ptr ⦃api = other⦄ ptr val)
  unfolding return_u256_ptr
  return_u256_ptr-Related ptr val = search view_rules depth 30

  pub value-Related :
      (args : RuntimeArgs)
      → Related (SameRun M api other) (value ⦃api = api⦄ args) (value ⦃api = other⦄ args)
  unfolding value
  value-Related args = search (view_rules, return_u256_ptr-Related) depth 30

  pub difficulty-Related :
      (args : RuntimeArgs)
      → Related (SameRun M api other) (difficulty ⦃api = api⦄ args) (difficulty ⦃api = other⦄ args)
  unfolding difficulty
  difficulty-Related args =
      search (view_rules, difficulty_query-Related, return_u256_ptr-Related) depth 30

  pub gaslimit-Related :
      (args : RuntimeArgs)
      → Related (SameRun M api other) (gaslimit ⦃api = api⦄ args) (gaslimit ⦃api = other⦄ args)
  unfolding gaslimit
  gaslimit-Related args = search (view_rules, limit_query-Related, return_u256_ptr-Related) depth 30

  pub block_author-Related :
      (args : RuntimeArgs)
      → Related
          (SameRun M api other)
          (block_author ⦃api = api⦄ args)
          (block_author ⦃api = other⦄ args)
  unfolding block_author
  block_author-Related args =
      search (view_rules, author_query-Related, return_address_ptr-Related) depth 30

  pub address-Related :
      (args : RuntimeArgs)
      → Related (SameRun M api other) (address ⦃api = api⦄ args) (address ⦃api = other⦄ args)
  unfolding address
  address-Related args = search (view_rules, return_address_ptr-Related) depth 30

  pub sender-Related :
      (args : RuntimeArgs)
      → Related (SameRun M api other) (sender ⦃api = api⦄ args) (sender ⦃api = other⦄ args)
  unfolding sender
  sender-Related args = search (view_rules, return_address_ptr-Related) depth 30

  pub origin-Related :
      (args : RuntimeArgs)
      → Related (SameRun M api other) (origin ⦃api = api⦄ args) (origin ⦃api = other⦄ args)
  unfolding origin
  origin-Related args = search (view_rules, return_address_ptr-Related) depth 30

  pub block_hash-Related :
      (args : RuntimeArgs)
      → Related (SameRun M api other) (block_hash ⦃api = api⦄ args) (block_hash ⦃api = other⦄ args)
  unfolding block_hash
  block_hash-Related args = search (view_rules, hash_query-Related) depth 30

  pub input_length-Related :
      Related (SameRun M api other) (input_length ⦃api = api⦄) (input_length ⦃api = other⦄)
  unfolding input_length
  input_length-Related = search view_rules depth 30

  pub block_number-Related :
      Related (SameRun M api other) (block_number ⦃api = api⦄) (block_number ⦃api = other⦄)
  unfolding block_number State.block_number
  block_number-Related = Related-gets _ _ (λ s t h. rw h.view.block.block_number refl)

  pub timestamp-Related :
      Related (SameRun M api other) (timestamp ⦃api = api⦄) (timestamp ⦃api = other⦄)
  unfolding timestamp State.timestamp
  timestamp-Related = Related-gets _ _ (λ s t h. rw h.view.block.block_number refl)

  pub gasleft-Related : Related (SameRun M api other) (gasleft ⦃api = api⦄) (gasleft ⦃api = other⦄)
  unfolding gasleft gas_left
  gasleft-Related = search view_rules depth 30
