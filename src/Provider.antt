-- ===== src/Provider.antt =====
-- durian/src/provider.rs: what the virtual machine asks of the blockchain, a trait in the source
-- and here a record of operations on the implementation's state `P`. A method on `&self` reads it,
-- one on `&mut self` returns it changed. Any of them may panic, as the source's own
-- implementations do.
pub mod Store
pub mod Twins
use durian.Base.{ℕ, Bool, Bytes}
use durian.Exec.{Outcome, Exec}
use durian.Types.{Address, H256}

pub record StateAccount : Type 0 where
  pub nonce : ℕ
  pub balance : ℕ
  pub code : Bytes

pub record Provider (P : Type 0) : Type 0 where
  pub exist : Address → P → Bool
  pub account : Address → P → Outcome StateAccount
  pub update_account : Address → ℕ → ℕ → Exec P Unit
  pub create_contract : Address → Bytes → Exec P Unit
  pub storage_at : Address → H256 → P → Outcome H256
  pub set_storage : Address → H256 → H256 → Exec P Unit
  pub timestamp : P → ℕ
  pub block_number : P → ℕ
  pub block_hash : ℕ → P → Outcome H256
  pub block_author : P → Outcome Address
  pub difficulty : P → Outcome ℕ
  pub gas_limit : P → Outcome ℕ
