-- ===== src/Runtime/Twins/Handlers.antt =====
-- The host functions of durian/src/runtime.rs, and a call by number, over two providers that cannot
-- be told apart.
use durian.Base.{ℕ, ◌≡◌, ◌+◌, Bool, true, false, Option, none, some, zero, suc, ◌==◌}
use durian.Exec.{Exec}
use durian.Exec.Same.{Same-if_known, Same-lift, Same, Same-bind, Same-pure, same_rules}
use durian.Types.{ActionType}
use durian.Crates.{Crates, Wasmi, RuntimeArgs, RuntimeValue, FillsBuffers}
use durian.Provider.{Provider}
use durian.Provider.Twins.{AreTwins}
use durian.State.Twins.{balance-Same, storage_at-Same, set_storage-Same}
use durian.Runtime.{Runtime}
use durian.Runtime.Storage.{storage_read, add_sstore_refund, storage_write}
use durian.Runtime.Output.{ret, gas, panic, debug, topic_offset, read_topic, read_topics, elog}
use durian.Runtime.Calls.{read_value, covered, enter, do_call, ccall, create, suicide}
use durian.Env.{
  block_hash_func, block_number_func, block_author_func, difficulty_func, gaslimit_func,
  timestamp_func,
}
use durian.Runtime.Dispatch.{without_value, with_value, invoke_index}
use durian.Runtime.Twins.{IsSizedRun, own_address-Same, key-Same, sized_rules}
use durian.Runtime.Twins.Queries.{
  fetch_input-Same, value-Same, difficulty-Same, gaslimit-Same, block_author-Same, address-Same,
  sender-Same, origin-Same, block_hash-Same, input_length-Same, block_number-Same, timestamp-Same,
  gasleft-Same,
}

-- Where the block may be asked for if the function with this number does so.
pub record MayCall (AsksBlock : Type 0) (index : ℕ) : Type 0 where
  pub block_hash : (index == block_hash_func) ≡ true → AsksBlock
  pub block_number : (index == block_number_func) ≡ true → AsksBlock
  pub block_author : (index == block_author_func) ≡ true → AsksBlock
  pub difficulty : (index == difficulty_func) ≡ true → AsksBlock
  pub gaslimit : (index == gaslimit_func) ≡ true → AsksBlock
  pub timestamp : (index == timestamp_func) ≡ true → AsksBlock

module _ {P M : Type 0} (api twin : Provider P) {IsValid : P → Type 0} {Updates AsksBlock : Type 0}
    (twins : AreTwins api twin IsValid Updates AsksBlock) ⦃crates : Crates⦄ ⦃wasmi : Wasmi M⦄
    (fills : FillsBuffers wasmi) where
  storage_read-Same :
      (args : RuntimeArgs)
      → Same
          (IsSizedRun M Updates IsValid)
          (storage_read ⦃api = api⦄ args)
          (storage_read ⦃api = twin⦄ args)
  unfolding storage_read
  storage_read-Same args =
      search (sized_rules, storage_at-Same api twin twins, key-Same fills, own_address-Same) depth
        30

  storage_write-Same :
      (args : RuntimeArgs)
      → Same
          (IsSizedRun M Updates IsValid)
          (storage_write ⦃api = api⦄ args)
          (storage_write ⦃api = twin⦄ args)
  unfolding storage_write add_sstore_refund
  storage_write-Same args =
      search
        (
          sized_rules,
          storage_at-Same api twin twins,
          set_storage-Same api twin twins,
          key-Same fills,
          own_address-Same,
        )
        depth 40

  ret-Same : (args : RuntimeArgs) → Same (IsSizedRun M Updates IsValid) (ret args) (ret args)
  unfolding ret
  ret-Same args = search sized_rules depth 30

  gas-Same : (args : RuntimeArgs) → Same (IsSizedRun M Updates IsValid) (gas args) (gas args)
  unfolding gas
  gas-Same args = search sized_rules depth 30

  panic-Same : (args : RuntimeArgs) → Same (IsSizedRun M Updates IsValid) (panic args) (panic args)
  unfolding panic
  panic-Same args = search sized_rules depth 30

  debug-Same : (args : RuntimeArgs) → Same (IsSizedRun M Updates IsValid) (debug args) (debug args)
  unfolding debug
  debug-Same args = search sized_rules depth 30

  read_topic-Same :
      (o : Option ℕ) → Same (IsSizedRun M Updates IsValid) (read_topic o) (read_topic o)
  unfolding read_topic
  read_topic-Same none = search sized_rules
  read_topic-Same (some offset) = search sized_rules

  read_topics-Same :
      (left i topic_ptr : ℕ)
      → Same
          (IsSizedRun M Updates IsValid)
          (read_topics left i topic_ptr)
          (read_topics left i topic_ptr)
  unfolding read_topics
  read_topics-Same zero i topic_ptr = search sized_rules
  read_topics-Same (suc left) i topic_ptr =
      Same-bind _ _ _ _ (read_topic-Same (topic_offset i topic_ptr))
        λ topic. Same-bind _ _ _ _ (read_topics-Same left (i + 1) topic_ptr) λ rest. Same-pure _

  elog-Same : (args : RuntimeArgs) → Same (IsSizedRun M Updates IsValid) (elog args) (elog args)
  unfolding elog
  elog-Same args = search (sized_rules, read_topics-Same) depth 30

  read_value-Same :
      (b : Bool) (args : RuntimeArgs)
      → Same
          (IsSizedRun M Updates IsValid)
          (read_value ⦃api = api⦄ b args)
          (read_value ⦃api = twin⦄ b args)
  unfolding read_value
  read_value-Same false args = search sized_rules
  read_value-Same true args = search sized_rules

  covered-Same :
      (val : Option ℕ)
      → Same (IsSizedRun M Updates IsValid) (covered ⦃api = api⦄ val) (covered ⦃api = twin⦄ val)
  unfolding covered
  covered-Same none = search sized_rules
  covered-Same (some v) =
      search (sized_rules, balance-Same api twin twins, own_address-Same) depth 20

  enter-Same :
      (g : Option ℕ)
      → Same (IsSizedRun M Updates IsValid) (enter ⦃api = api⦄ g) (enter ⦃api = twin⦄ g)
  unfolding enter
  enter-Same none = search sized_rules
  enter-Same (some g) = search sized_rules

  do_call-Same :
      (use_val : Bool) (call_type : ActionType) (args : RuntimeArgs)
      → Same
          (IsSizedRun M Updates IsValid)
          (do_call ⦃api = api⦄ use_val call_type args)
          (do_call ⦃api = twin⦄ use_val call_type args)
  unfolding do_call
  do_call-Same use_val call_type args =
      search (sized_rules, read_value-Same, covered-Same, enter-Same) depth 30

  ccall-Same :
      (args : RuntimeArgs)
      → Same (IsSizedRun M Updates IsValid) (ccall ⦃api = api⦄ args) (ccall ⦃api = twin⦄ args)
  unfolding ccall
  ccall-Same args = search (sized_rules, do_call-Same) depth 30

  create-Same :
      (args : RuntimeArgs)
      → Same (IsSizedRun M Updates IsValid) (create ⦃api = api⦄ args) (create ⦃api = twin⦄ args)
  unfolding create
  create-Same args = search sized_rules depth 30

  suicide-Same :
      (args : RuntimeArgs)
      → Same (IsSizedRun M Updates IsValid) (suicide ⦃api = api⦄ args) (suicide ⦃api = twin⦄ args)
  unfolding suicide
  suicide-Same args = search sized_rules depth 30

  without_value-Same :
      (m n : Exec (Runtime P M) Unit)
      → Same (IsSizedRun M Updates IsValid) m n
      → Same (IsSizedRun M Updates IsValid) (without_value m) (without_value n)
  unfolding without_value
  without_value-Same m n h = search same_rules

  with_value-Same :
      (m n : Exec (Runtime P M) RuntimeValue)
      → Same (IsSizedRun M Updates IsValid) m n
      → Same (IsSizedRun M Updates IsValid) (with_value m) (with_value n)
  unfolding with_value
  with_value-Same m n h = search same_rules

  -- A call of a host function by its number, any number, does the same over both.
  pub invoke_index-Same :
      (index : ℕ) (args : RuntimeArgs)
      → MayCall AsksBlock index
      → Same
          (IsSizedRun M Updates IsValid)
          (invoke_index ⦃api = api⦄ index args)
          (invoke_index ⦃api = twin⦄ index args)
  unfolding invoke_index
  invoke_index-Same index args may =
      let hash = λ (e : (index == block_hash_func) ≡ true).
        block_hash-Same api twin twins fills (may.block_hash e) args in
      let number = λ (e : (index == block_number_func) ≡ true).
        block_number-Same api twin twins fills (may.block_number e) in
      let author = λ (e : (index == block_author_func) ≡ true).
        block_author-Same api twin twins fills (may.block_author e) args in
      let difficult = λ (e : (index == difficulty_func) ≡ true).
        difficulty-Same api twin twins fills (may.difficulty e) args in
      let limit = λ (e : (index == gaslimit_func) ≡ true).
        gaslimit-Same api twin twins fills (may.gaslimit e) args in
      let time = λ (e : (index == timestamp_func) ≡ true).
        timestamp-Same api twin twins fills (may.timestamp e) in
      search
        (
          Same-if_known, Same-lift, storage_read-Same, storage_write-Same, ret-Same, gas-Same,
          panic-Same, debug-Same, elog-Same, ccall-Same, create-Same, suicide-Same,
          fetch_input-Same, value-Same, address-Same, sender-Same, origin-Same, input_length-Same,
          gasleft-Same, without_value-Same, with_value-Same, hash, number, author, difficult, limit,
          time,
        )
        depth 60 fits 20000
