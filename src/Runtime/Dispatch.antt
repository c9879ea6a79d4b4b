-- ===== src/Runtime/Dispatch.antt =====
-- `impl Externals for Runtime` of durian/src/runtime.rs: the interpreter calls a host function by its
-- number. An error is handed to the interpreter as a host trap, here the outcome `err`.
use durian.Base.{ℕ, Option, none, some, ◌==◌, if◌then◌else◌}
use durian.Exec.{panicked, Exec, pure, lift, ◌>>=◌, ◌>>◌}
use durian.Crates.{Crates, Wasmi, RuntimeArgs, RuntimeValue}
use durian.Provider.{Provider}
use durian.Env.{
  storage_write_func, storage_read_func, ret_func, gas_func, input_length_func, fetch_input_func,
  panic_func, debug_func, ccall_func, value_func, create_func, suicide_func, block_hash_func,
  block_number_func, block_author_func, difficulty_func, gaslimit_func, timestamp_func,
  address_func, sender_func, origin_func, elog_func, gasleft_func,
}
use durian.Runtime.{Runtime}
use durian.Runtime.Storage.{storage_read, storage_write}
use durian.Runtime.Output.{ret, gas, panic, debug, elog}
use durian.Runtime.Calls.{ccall, create, suicide}
use durian.Runtime.Queries.{
  input_length, fetch_input, value, block_hash, block_number, block_author, difficulty, gaslimit,
  timestamp, gasleft, address, sender, origin,
}

module _ {P M : Type 0} where
  -- The macro `void!`: a host function that returns nothing.
  unfoldable pub without_value : Exec (Runtime P M) Unit → Exec (Runtime P M) (Option RuntimeValue)
  without_value m = do m; pure none

  -- The macros `some!` and `cast!`: one that returns a value.
  unfoldable pub with_value :
      Exec (Runtime P M) RuntimeValue → Exec (Runtime P M) (Option RuntimeValue)
  with_value m = do v ← m; pure (some v)

module _ {P M : Type 0} ⦃api : Provider P⦄ ⦃crates : Crates⦄ ⦃wasmi : Wasmi M⦄ where
  unfoldable pub invoke_index : ℕ → RuntimeArgs → Exec (Runtime P M) (Option RuntimeValue)
  invoke_index index args =
      if index == storage_write_func
      then without_value (storage_write args)
      else if index == storage_read_func
      then without_value (storage_read args)
      else if index == ret_func
      then without_value (ret args)
      else if index == gas_func
      then without_value (gas args)
      else if index == input_length_func
      then with_value input_length
      else if index == fetch_input_func
      then without_value (fetch_input args)
      else if index == panic_func
      then without_value (panic args)
      else if index == debug_func
      then without_value (debug args)
      else if index == ccall_func
      then with_value (ccall args)
      else if index == value_func
      then without_value (value args)
      else if index == create_func
      then with_value (create args)
      else if index == suicide_func
      then without_value (suicide args)
      else if index == block_hash_func
      then without_value (block_hash args)
      else if index == block_number_func
      then with_value block_number
      else if index == block_author_func
      then without_value (block_author args)
      else if index == difficulty_func
      then without_value (difficulty args)
      else if index == gaslimit_func
      then without_value (gaslimit args)
      else if index == timestamp_func
      then with_value timestamp
      else if index == address_func
      then without_value (address args)
      else if index == sender_func
      then without_value (sender args)
      else if index == origin_func
      then without_value (origin args)
      else if index == elog_func
      then without_value (elog args)
      else if index == gasleft_func
      then with_value gasleft
      else lift panicked
