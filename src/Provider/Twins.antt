-- ===== src/Provider/Twins.antt =====
-- Two implementations of durian/src/provider.rs on one blockchain that cannot be told apart by
-- addresses of 20 bytes, keys and values of 32 bytes, the lengths that the types of the source give.
-- `Updates` says that accounts may be updated and `AsksBlock` that the block may be asked for: where
-- they do not hold, the two may differ there.
use durian.Base.{ℕ, ◌≡◌, Bytes, length}
use durian.Exec.{if_ok}
use durian.Types.{Address, H256}
use durian.Provider.{Provider}

pub record AreTwins {P : Type 0} (api twin : Provider P) (IsValid : P → Type 0)
    (Updates AsksBlock : Type 0) : Type 0 where
  pub exist : (a : Address) (p : P) → length a ≡ 20 → api.exist a p ≡ twin.exist a p
  pub account :
      (a : Address) (p : P)
      → IsValid p
      → length a ≡ 20
      → if_ok (api.account a p) ≡ if_ok (twin.account a p)
  pub storage_at :
      (a : Address) (k : H256) (p : P)
      → IsValid p
      → length a ≡ 20
      → length k ≡ 32
      → if_ok (api.storage_at a k p) ≡ if_ok (twin.storage_at a k p)
  pub set_storage :
      (a : Address) (k v : H256) (p : P)
      → length a ≡ 20
      → length k ≡ 32
      → length v ≡ 32
      → api.set_storage a k v p ≡ twin.set_storage a k v p
  pub update_account :
      Updates
      → (a : Address) (balance nonce : ℕ) (p : P) → length a ≡ 20
      → api.update_account a balance nonce p ≡ twin.update_account a balance nonce p
  pub create_contract :
      (a : Address) (code : Bytes) (p : P)
      → length a ≡ 20
      → api.create_contract a code p ≡ twin.create_contract a code p
  pub block_number : AsksBlock → (p : P) → api.block_number p ≡ twin.block_number p
  pub block_hash : AsksBlock → (n : ℕ) (p : P) → api.block_hash n p ≡ twin.block_hash n p
  pub block_author : AsksBlock → (p : P) → api.block_author p ≡ twin.block_author p
  pub difficulty : AsksBlock → (p : P) → api.difficulty p ≡ twin.difficulty p
  pub gas_limit : AsksBlock → (p : P) → api.gas_limit p ≡ twin.gas_limit p
