-- ===== src/Runtime/Slots.antt =====
-- What the storage functions of durian/src/runtime.rs do to the contract's storage, its memory and
-- its gas.
use durian.Base.{ℕ, ◌+◌, ◌≡◌, inr, arith, bytes_eq, ◌&&◌, if◌then◌else◌}
use durian.Exec.{ok, on_field, ◌>>=◌}
use durian.Types.{Address, H256}
use durian.Schedule.{Schedule}
use durian.Crates.{Crates, Wasmi, RuntimeArgs}
use durian.Provider.{Provider}
use durian.State.View.{value_at}
use durian.State.View.Slots.{storage_at-eq-value_at, value_at-storage_at, value_at-set_storage_ok}
use durian.Runtime.{
  Runtime, adjusted, adjusted_charge, charge, charge_gas, on_state, arg_u32, h256_at, memory_set,
}
use durian.Runtime.Storage.{write_price, storage_read, storage_write, add_sstore_refund}

module _ {P M : Type 0} where
  charge-kept :
      (f : Schedule → ℕ) (s : Runtime P M)
      → ((adjusted_charge f s).1.state ≡ s.state) × ((adjusted_charge f s).1.memory ≡ s.memory)
  unfolding adjusted_charge charge charge_gas ◌>>=◌
  charge-kept f s = ground arith

  charge-counter :
      (f : Schedule → ℕ) (price : ℕ) (s : Runtime P M)
      → adjusted f s.schedule ≡ ok price
      → (adjusted_charge f s).0 ≡ ok tt
      → (adjusted_charge f s).1.gas_counter ≡ s.gas_counter + price
  unfolding adjusted_charge charge charge_gas ◌>>=◌
  charge-counter f price s h e = ground arith

module _ {P M : Type 0} ⦃api : Provider P⦄ ⦃crates : Crates⦄ ⦃wasmi : Wasmi M⦄ where
  -- A read that returns has put the value of the slot, as it was before, at the given place in the
  -- contract's memory, and every slot still has its value.
  pub storage_read_lem :
      (args : RuntimeArgs) (key_ptr val_ptr : ℕ) (key val : H256) (s : Runtime P M)
      → wasmi.nth_u32 args 0 ≡ inr key_ptr
      → wasmi.nth_u32 args 1 ≡ inr val_ptr
      → wasmi.get_into s.memory key_ptr 32 ≡ inr key
      → value_at s.params.address key s.state ≡ ok val
      → (storage_read args s).0 ≡ ok tt
      → (wasmi.set s.memory val_ptr val ≡ inr (storage_read args s).1.memory)
        × ((b : Address) (j : H256)
            → value_at b j (storage_read args s).1.state ≡ value_at b j s.state)
  unfolding storage_read arg_u32 h256_at on_state on_field memory_set ◌>>=◌
  storage_read_lem args key_ptr val_ptr key val s h0 h1 hk hv e = (
    grind (arith, storage_at-eq-value_at, charge-kept),
    λ b j. grind (arith, charge-kept, value_at-storage_at),
  )

  -- A write that returns has set the slot to the value found in the contract's memory, left every
  -- other slot and the memory alone, and charged the price of setting a zero slot or of resetting
  -- one.
  pub storage_write_lem :
      (args : RuntimeArgs) (key_ptr val_ptr : ℕ) (key val former : H256) (price : ℕ)
      (s : Runtime P M)
      → wasmi.nth_u32 args 0 ≡ inr key_ptr
      → wasmi.nth_u32 args 1 ≡ inr val_ptr
      → wasmi.get_into s.memory key_ptr 32 ≡ inr key
      → wasmi.get_into s.memory val_ptr 32 ≡ inr val
      → value_at s.params.address key s.state ≡ ok former
      → adjusted (write_price former val) s.schedule ≡ ok price
      → (storage_write args s).0 ≡ ok tt
      → ((b : Address) (j : H256)
          → value_at b j (storage_write args s).1.state ≡ (
              if bytes_eq s.params.address b && bytes_eq key j
              then ok val
              else value_at b j s.state))
        × ((storage_write args s).1.memory ≡ s.memory)
        × ((storage_write args s).1.gas_counter ≡ s.gas_counter + price)
  unfolding storage_write arg_u32 h256_at on_state on_field add_sstore_refund ◌>>=◌
  storage_write_lem args key_ptr val_ptr key val former price s h0 h1 hk hv hf hp e = (
    λ b j. grind (
      arith,
      storage_at-eq-value_at,
      value_at-storage_at,
      value_at-set_storage_ok s.params.address b key j val,
      charge-kept,
    ),
    grind (arith, charge-kept),
    grind (arith, storage_at-eq-value_at, charge-counter (write_price former val) price),
  )
