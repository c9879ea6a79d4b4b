-- ===== src/Runtime/Guard/Handlers.antt =====
-- The host functions of durian/src/runtime.rs, and a call by number, under the relation `HostStep`.
use durian.Base.{ℕ, ◌+◌, Bool, true, false, Option, none, some, Bytes, zero, suc}
use durian.Exec.{Exec}
use durian.Exec.Steps.{Steps, Steps-bind, Steps-pure, steps_rules}
use durian.Types.{ActionType}
use durian.Crates.{Crates, Wasmi, RuntimeArgs, RuntimeValue}
use durian.Provider.{Provider}
use durian.Runtime.{Runtime}
use durian.Runtime.Storage.{storage_read, add_sstore_refund, storage_write}
use durian.Runtime.Output.{ret, gas, panic, debug, topic_offset, read_topic, read_topics, elog}
use durian.Runtime.Calls.{read_value, covered, enter, do_call, ccall, create, suicide}
use durian.Runtime.Queries.{
  input_length, fetch_input, return_address_ptr, return_u256_ptr, value, block_hash, block_number,
  block_author, difficulty, gaslimit, timestamp, gasleft, address, sender, origin,
}
use durian.Runtime.Dispatch.{without_value, with_value, invoke_index}
use durian.Runtime.Guard.{HostStep, host_step, host_rules}

module _ {P M : Type 0} ⦃api : Provider P⦄ ⦃crates : Crates⦄ ⦃wasmi : Wasmi M⦄ where
  storage_read-HostStep :
      (args : RuntimeArgs) → Steps (HostStep {P = P} {M = M}) (storage_read args)
  unfolding storage_read
  storage_read-HostStep args = search host_rules depth 20

  storage_write-HostStep :
      (args : RuntimeArgs) → Steps (HostStep {P = P} {M = M}) (storage_write args)
  unfolding storage_write add_sstore_refund
  storage_write-HostStep args = search host_rules depth 20

  ret-HostStep : (args : RuntimeArgs) → Steps (HostStep {P = P} {M = M}) (ret args)
  unfolding ret
  ret-HostStep args = search (host_rules) depth 30

  gas-HostStep : (args : RuntimeArgs) → Steps (HostStep {P = P} {M = M}) (gas args)
  unfolding gas
  gas-HostStep args = search (host_rules) depth 30

  panic-HostStep : (args : RuntimeArgs) → Steps (HostStep {P = P} {M = M}) (panic args)
  unfolding panic
  panic-HostStep args = search (host_rules) depth 30

  debug-HostStep : (args : RuntimeArgs) → Steps (HostStep {P = P} {M = M}) (debug args)
  unfolding debug
  debug-HostStep args = search (host_rules) depth 30

  read_topic-HostStep : (o : Option ℕ) → Steps (HostStep {P = P} {M = M}) (read_topic o)
  unfolding read_topic
  read_topic-HostStep none = search host_rules
  read_topic-HostStep (some offset) = search host_rules

  read_topics-HostStep :
      (left i topic_ptr : ℕ) → Steps (HostStep {P = P} {M = M}) (read_topics left i topic_ptr)
  unfolding read_topics
  read_topics-HostStep zero i topic_ptr = search host_rules
  read_topics-HostStep (suc left) i topic_ptr =
      Steps-bind _ _ (read_topic-HostStep (topic_offset i topic_ptr))
        λ topic. Steps-bind _ _ (read_topics-HostStep left (i + 1) topic_ptr) λ rest. Steps-pure _

  elog-HostStep : (args : RuntimeArgs) → Steps (HostStep {P = P} {M = M}) (elog args)
  unfolding elog
  elog-HostStep args = search (host_rules, read_topics-HostStep) depth 30

  read_value-HostStep :
      (b : Bool) (args : RuntimeArgs) → Steps (HostStep {P = P} {M = M}) (read_value b args)
  unfolding read_value
  read_value-HostStep false args = search host_rules
  read_value-HostStep true args = search host_rules

  covered-HostStep : (val : Option ℕ) → Steps (HostStep {P = P} {M = M}) (covered val)
  unfolding covered
  covered-HostStep none = search host_rules
  covered-HostStep (some v) = search host_rules

  enter-HostStep : (g : Option ℕ) → Steps (HostStep {P = P} {M = M}) (enter g)
  unfolding enter
  enter-HostStep none = search host_rules
  enter-HostStep (some g) = search host_rules

  do_call-HostStep :
      (use_val : Bool) (call_type : ActionType) (args : RuntimeArgs)
      → Steps (HostStep {P = P} {M = M}) (do_call use_val call_type args)
  unfolding do_call
  do_call-HostStep use_val call_type args =
      search (host_rules, read_value-HostStep, covered-HostStep, enter-HostStep) depth 30

  ccall-HostStep : (args : RuntimeArgs) → Steps (HostStep {P = P} {M = M}) (ccall args)
  unfolding ccall
  ccall-HostStep args = search (host_rules, do_call-HostStep) depth 30

  create-HostStep : (args : RuntimeArgs) → Steps (HostStep {P = P} {M = M}) (create args)
  unfolding create
  create-HostStep args = search (host_rules) depth 30

  suicide-HostStep : (args : RuntimeArgs) → Steps (HostStep {P = P} {M = M}) (suicide args)
  unfolding suicide
  suicide-HostStep args = search (host_rules) depth 30

  fetch_input-HostStep : (args : RuntimeArgs) → Steps (HostStep {P = P} {M = M}) (fetch_input args)
  unfolding fetch_input
  fetch_input-HostStep args = search (host_rules) depth 30

  return_address_ptr-HostStep :
      (ptr : ℕ) (val : Bytes) → Steps (HostStep {P = P} {M = M}) (return_address_ptr ptr val)
  unfolding return_address_ptr
  return_address_ptr-HostStep ptr val = search (host_rules) depth 30

  return_u256_ptr-HostStep :
      (ptr : ℕ) (val : ℕ) → Steps (HostStep {P = P} {M = M}) (return_u256_ptr ptr val)
  unfolding return_u256_ptr
  return_u256_ptr-HostStep ptr val = search (host_rules) depth 30

  value-HostStep : (args : RuntimeArgs) → Steps (HostStep {P = P} {M = M}) (value args)
  unfolding value
  value-HostStep args = search (host_rules, return_u256_ptr-HostStep) depth 30

  difficulty-HostStep : (args : RuntimeArgs) → Steps (HostStep {P = P} {M = M}) (difficulty args)
  unfolding difficulty
  difficulty-HostStep args = search (host_rules, return_u256_ptr-HostStep) depth 30

  gaslimit-HostStep : (args : RuntimeArgs) → Steps (HostStep {P = P} {M = M}) (gaslimit args)
  unfolding gaslimit
  gaslimit-HostStep args = search (host_rules, return_u256_ptr-HostStep) depth 30

  block_author-HostStep :
      (args : RuntimeArgs) → Steps (HostStep {P = P} {M = M}) (block_author args)
  unfolding block_author
  block_author-HostStep args = search (host_rules, return_address_ptr-HostStep) depth 30

  address-HostStep : (args : RuntimeArgs) → Steps (HostStep {P = P} {M = M}) (address args)
  unfolding address
  address-HostStep args = search (host_rules, return_address_ptr-HostStep) depth 30

  sender-HostStep : (args : RuntimeArgs) → Steps (HostStep {P = P} {M = M}) (sender args)
  unfolding sender
  sender-HostStep args = search (host_rules, return_address_ptr-HostStep) depth 30

  origin-HostStep : (args : RuntimeArgs) → Steps (HostStep {P = P} {M = M}) (origin args)
  unfolding origin
  origin-HostStep args = search (host_rules, return_address_ptr-HostStep) depth 30

  block_hash-HostStep : (args : RuntimeArgs) → Steps (HostStep {P = P} {M = M}) (block_hash args)
  unfolding block_hash
  block_hash-HostStep args = search (host_rules) depth 30

  input_length-HostStep : Steps (HostStep {P = P} {M = M}) input_length
  unfolding input_length
  input_length-HostStep = search (host_rules) depth 30

  block_number-HostStep : Steps (HostStep {P = P} {M = M}) block_number
  unfolding block_number
  block_number-HostStep = search (host_rules) depth 30

  timestamp-HostStep : Steps (HostStep {P = P} {M = M}) timestamp
  unfolding timestamp
  timestamp-HostStep = search (host_rules) depth 30

  gasleft-HostStep : Steps (HostStep {P = P} {M = M}) gasleft
  unfolding gasleft
  gasleft-HostStep = search (host_rules) depth 30

ruleset handler_rules = (
  host_rules, storage_read-HostStep, storage_write-HostStep, ret-HostStep, gas-HostStep,
  panic-HostStep, debug-HostStep, elog-HostStep, ccall-HostStep, create-HostStep, suicide-HostStep,
  fetch_input-HostStep, value-HostStep, difficulty-HostStep, gaslimit-HostStep,
  block_author-HostStep, address-HostStep, sender-HostStep, origin-HostStep, block_hash-HostStep,
  input_length-HostStep, block_number-HostStep, timestamp-HostStep, gasleft-HostStep,
)

module _ {P M : Type 0} ⦃api : Provider P⦄ where
  without_value-HostStep :
      (m : Exec (Runtime P M) Unit) → Steps HostStep m → Steps HostStep (without_value m)
  unfolding without_value
  without_value-HostStep m h = search steps_rules

  with_value-HostStep :
      (m : Exec (Runtime P M) RuntimeValue) → Steps HostStep m → Steps HostStep (with_value m)
  unfolding with_value
  with_value-HostStep m h = search steps_rules

module _ {P M : Type 0} ⦃api : Provider P⦄ ⦃crates : Crates⦄ ⦃wasmi : Wasmi M⦄ where
  -- A call of a host function by its number, any number, is such a step.
  pub invoke_index-HostStep :
      (index : ℕ) (args : RuntimeArgs) → Steps (HostStep {P = P} {M = M}) (invoke_index index args)
  unfolding invoke_index
  invoke_index-HostStep index args =
      search (handler_rules, without_value-HostStep, with_value-HostStep) depth 60
