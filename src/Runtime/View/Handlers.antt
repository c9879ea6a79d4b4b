-- ===== src/Runtime/View/Handlers.antt =====
-- The host functions of durian/src/runtime.rs, and a call by number, on two states that show the
-- same.
use durian.Base.{ℕ, ◌+◌, Bool, true, false, Option, none, some, zero, suc}
use durian.Exec.{Exec}
use durian.Exec.Related.{Related, Related-bind, Related-pure, related_rules}
use durian.Types.{ActionType}
use durian.Crates.{Crates, Wasmi, RuntimeArgs, RuntimeValue}
use durian.Provider.{Provider}
use durian.State.View.Same.{storage_at-Related, balance-Related, set_storage-Related}
use durian.Runtime.{Runtime}
use durian.Runtime.Storage.{storage_read, add_sstore_refund, storage_write}
use durian.Runtime.Output.{ret, gas, panic, debug, topic_offset, read_topic, read_topics, elog}
use durian.Runtime.Calls.{read_value, covered, enter, do_call, ccall, create, suicide}
use durian.Runtime.Dispatch.{without_value, with_value, invoke_index}
use durian.Runtime.View.{SameRun, view_rules}
use durian.Runtime.View.Queries.{
  fetch_input-Related, value-Related, difficulty-Related, gaslimit-Related, block_author-Related,
  address-Related, sender-Related, origin-Related, block_hash-Related, input_length-Related,
  block_number-Related, timestamp-Related, gasleft-Related,
}

module _ {P Q M : Type 0} (api : Provider P) (other : Provider Q) ⦃crates : Crates⦄
    ⦃wasmi : Wasmi M⦄ where
  storage_read-Related :
      (args : RuntimeArgs)
      → Related
          (SameRun M api other)
          (storage_read ⦃api = api⦄ args)
          (storage_read ⦃api = other⦄ args)
  unfolding storage_read
  storage_read-Related args = search (view_rules, storage_at-Related api other) depth 30

  storage_write-Related :
      (args : RuntimeArgs)
      → Related
          (SameRun M api other)
          (storage_write ⦃api = api⦄ args)
          (storage_write ⦃api = other⦄ args)
  unfolding storage_write add_sstore_refund
  storage_write-Related args =
      search (view_rules, storage_at-Related api other, set_storage-Related api other) depth 40

  ret-Related : (args : RuntimeArgs) → Related (SameRun M api other) (ret args) (ret args)
  unfolding ret
  ret-Related args = search view_rules depth 30

  gas-Related : (args : RuntimeArgs) → Related (SameRun M api other) (gas args) (gas args)
  unfolding gas
  gas-Related args = search view_rules depth 30

  panic-Related : (args : RuntimeArgs) → Related (SameRun M api other) (panic args) (panic args)
  unfolding panic
  panic-Related args = search view_rules depth 30

  debug-Related : (args : RuntimeArgs) → Related (SameRun M api other) (debug args) (debug args)
  unfolding debug
  debug-Related args = search view_rules depth 30

  read_topic-Related : (o : Option ℕ) → Related (SameRun M api other) (read_topic o) (read_topic o)
  unfolding read_topic
  read_topic-Related none = search view_rules
  read_topic-Related (some offset) = search view_rules

  read_topics-Related :
      (left i topic_ptr : ℕ)
      → Related (SameRun M api other) (read_topics left i topic_ptr) (read_topics left i topic_ptr)
  unfolding read_topics
  read_topics-Related zero i topic_ptr = search view_rules
  read_topics-Related (suc left) i topic_ptr =
      Related-bind _ _ _ _ (read_topic-Related (topic_offset i topic_ptr)) λ topic.
        Related-bind _ _ _ _ (read_topics-Related left (i + 1) topic_ptr) λ rest. Related-pure _

  elog-Related : (args : RuntimeArgs) → Related (SameRun M api other) (elog args) (elog args)
  unfolding elog
  elog-Related args = search (view_rules, read_topics-Related) depth 30

  read_value-Related :
      (b : Bool) (args : RuntimeArgs)
      → Related
          (SameRun M api other)
          (read_value ⦃api = api⦄ b args)
          (read_value ⦃api = other⦄ b args)
  unfolding read_value
  read_value-Related false args = search view_rules
  read_value-Related true args = search view_rules

  covered-Related :
      (val : Option ℕ)
      → Related (SameRun M api other) (covered ⦃api = api⦄ val) (covered ⦃api = other⦄ val)
  unfolding covered
  covered-Related none = search view_rules
  covered-Related (some v) = search (view_rules, balance-Related api other) depth 20

  enter-Related :
      (g : Option ℕ) → Related (SameRun M api other) (enter ⦃api = api⦄ g) (enter ⦃api = other⦄ g)
  unfolding enter
  enter-Related none = search view_rules
  enter-Related (some g) = search view_rules

  do_call-Related :
      (use_val : Bool) (call_type : ActionType) (args : RuntimeArgs)
      → Related
          (SameRun M api other)
          (do_call ⦃api = api⦄ use_val call_type args)
          (do_call ⦃api = other⦄ use_val call_type args)
  unfolding do_call
  do_call-Related use_val call_type args =
      search (view_rules, read_value-Related, covered-Related, enter-Related) depth 30

  ccall-Related :
      (args : RuntimeArgs)
      → Related (SameRun M api other) (ccall ⦃api = api⦄ args) (ccall ⦃api = other⦄ args)
  unfolding ccall
  ccall-Related args = search (view_rules, do_call-Related) depth 30

  create-Related :
      (args : RuntimeArgs)
      → Related (SameRun M api other) (create ⦃api = api⦄ args) (create ⦃api = other⦄ args)
  unfolding create
  create-Related args = search view_rules depth 30

  suicide-Related :
      (args : RuntimeArgs)
      → Related (SameRun M api other) (suicide ⦃api = api⦄ args) (suicide ⦃api = other⦄ args)
  unfolding suicide
  suicide-Related args = search view_rules depth 30

  without_value-Related :
      (m : Exec (Runtime P M) Unit) (n : Exec (Runtime Q M) Unit)
      → Related (SameRun M api other) m n
      → Related (SameRun M api other) (without_value m) (without_value n)
  unfolding without_value
  without_value-Related m n h = search related_rules

  with_value-Related :
      (m : Exec (Runtime P M) RuntimeValue) (n : Exec (Runtime Q M) RuntimeValue)
      → Related (SameRun M api other) m n
      → Related (SameRun M api other) (with_value m) (with_value n)
  unfolding with_value
  with_value-Related m n h = search related_rules

  -- A call of a host function by its number, any number, goes alike on both.
  pub invoke_index-Related :
      (index : ℕ) (args : RuntimeArgs)
      → Related
          (SameRun M api other)
          (invoke_index ⦃api = api⦄ index args)
          (invoke_index ⦃api = other⦄ index args)
  unfolding invoke_index
  invoke_index-Related index args =
      search
        (
          view_rules,
          storage_read-Related,
          storage_write-Related,
          ret-Related,
          gas-Related,
          panic-Related,
          debug-Related,
          elog-Related,
          ccall-Related,
          create-Related,
          suicide-Related,
          fetch_input-Related api other,
          value-Related api other,
          difficulty-Related api other,
          gaslimit-Related api other,
          block_author-Related api other,
          address-Related api other,
          sender-Related api other,
          origin-Related api other,
          block_hash-Related api other,
          input_length-Related api other,
          block_number-Related api other,
          timestamp-Related api other,
          gasleft-Related api other,
          without_value-Related,
          with_value-Related,
        )
        depth 60
