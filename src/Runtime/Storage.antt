-- ===== src/Runtime/Storage.antt =====
-- The storage functions of durian/src/runtime.rs.
use durian.Base.{ℕ, ◌&&◌, not, if◌then◌else◌, bytes_eq, Bytes}
use durian.Exec.{Exec, pure, gets, ◌>>=◌, ◌>>◌}
use durian.Types.{Address, H256, zero_hash}
use durian.Schedule.{Schedule}
use durian.Crates.{Crates, Wasmi, RuntimeArgs}
use durian.Provider.{Provider}
use durian.State
use durian.Runtime.{Runtime, adjusted_charge, on_state, arg_u32, memory_set, h256_at}

-- A slot that was zero is set, any other is reset.
unfoldable pub write_price : H256 → H256 → Schedule → ℕ
write_price former val schedule =
    if bytes_eq former zero_hash && not (bytes_eq val zero_hash)
    then schedule.sstore_set_gas
    else schedule.sstore_reset_gas

module _ {P M : Type 0} ⦃api : Provider P⦄ ⦃crates : Crates⦄ ⦃wasmi : Wasmi M⦄ where
  unfoldable pub storage_read : RuntimeArgs → Exec (Runtime P M) Unit
  storage_read args = do
    key_ptr ← arg_u32 args 0
    key ← h256_at key_ptr
    val_ptr ← arg_u32 args 1
    address ← gets (λ s. s.params.address)
    val ← on_state (State.storage_at address key)
    adjusted_charge (λ schedule. schedule.sload_gas)
    memory_set val_ptr val

  -- The refund does nothing yet, in the source too.
  unfoldable pub add_sstore_refund : ℕ → Exec (Runtime P M) Unit
  add_sstore_refund value = pure tt

  unfoldable pub storage_write : RuntimeArgs → Exec (Runtime P M) Unit
  unfolding write_price
  storage_write args = do
    key_ptr ← arg_u32 args 0
    key ← h256_at key_ptr
    val_ptr ← arg_u32 args 1
    val ← h256_at val_ptr
    address ← gets (λ s. s.params.address)
    former_val ← on_state (State.storage_at address key)
    adjusted_charge (write_price former_val val)
    on_state (State.set_storage address key val)
    if not (bytes_eq former_val zero_hash) && bytes_eq val zero_hash
        then (do refund ← gets (λ s. s.schedule.sstore_refund_gas); add_sstore_refund refund)
        else pure tt

  -- `Runtime::init_code` and `Runtime::update_state`
  unfoldable pub init_code : Address → Bytes → Exec (Runtime P M) Unit
  init_code address code = on_state (State.init_code address code)

  unfoldable pub update_state : Exec (Runtime P M) Unit
  update_state = on_state State.update_state
