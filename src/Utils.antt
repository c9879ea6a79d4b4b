-- ===== src/Utils.antt =====
-- durian/src/utils.rs: the address of a new contract.
pub mod Injective
use durian.Base.{◌∷◌, [], ◌++◌, Bytes}
use durian.Crates.{Crates}
use durian.Types.{Address, H256}

-- The 85 bytes that are hashed: 0xff, the sender, the salt and the hash of the code. Each
-- `copy_from_slice` copies a whole hash, of the length that its type gives it.
unfoldable pub address_buffer : Address → H256 → H256 → Bytes
address_buffer sender salt code_hash = (0xff ∷ []) ++ (sender ++ (salt ++ code_hash))

module _ ⦃crates : Crates⦄ where
  unfoldable pub keccak : Bytes → H256
  keccak s = crates.write_keccak s

  unfoldable pub contract_address : Address → Bytes → H256 → Address
  unfolding keccak address_buffer
  contract_address sender code salt =
      let code_hash = keccak code in
      crates.address_from_hash (keccak (address_buffer sender salt code_hash))
