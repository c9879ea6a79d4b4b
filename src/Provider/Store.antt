-- ===== src/Provider/Store.antt =====
-- What durian/src/state.rs relies on in an implementation of durian/src/provider.rs: that a storage
-- slot reads back what was last written to it, and that nothing else changes a slot.
use durian.Base.{ℕ, ◌≡◌, ◌≢◌, false, Option, none, some, if◌then◌else◌, ◌&&◌, Bytes, bytes_eq}
use durian.Exec.{Outcome, ok, err, panicked}
use durian.Types.{Address, H256}
use durian.Provider.{Provider}

-- The value of a slot, where the provider has one.
abbrev pub found : Outcome H256 → Option H256
found (ok v) = some v
found (err e) = none
found panicked = none

module _ {P : Type 0} (api : Provider P) where
  abbrev pub slot : Address → H256 → P → Option H256
  slot a k p = found (api.storage_at a k p)

-- On the states of `IsValid`, which the writes preserve, storage behaves as storage.
pub record IsStore {P : Type 0} (api : Provider P) (IsValid : P → Type 0) : Type 0 where
  pub account_total : (a : Address) (p : P) → IsValid p → api.account a p ≢ panicked
  pub storage_total : (a : Address) (k : H256) (p : P) → IsValid p → api.storage_at a k p ≢ panicked
  pub set_valid :
      (a : Address) (k v : H256) (p : P)
      → IsValid p
      → (api.set_storage a k v p).0 ≡ ok tt
      → IsValid (api.set_storage a k v p).1
  pub set_slot :
      (a b : Address) (k j v : H256) (p : P)
      → IsValid p
      → (api.set_storage a k v p).0 ≡ ok tt
      → slot api b j (api.set_storage a k v p).1
        ≡ (if bytes_eq a b && bytes_eq k j then some v else slot api b j p)
  pub update_valid :
      (a : Address) (balance nonce : ℕ) (p : P)
      → IsValid p
      → (api.update_account a balance nonce p).0 ≡ ok tt
      → IsValid (api.update_account a balance nonce p).1
  pub update_slot :
      (a b : Address) (j : H256) (balance nonce : ℕ) (p : P)
      → IsValid p
      → (api.update_account a balance nonce p).0 ≡ ok tt
      → slot api b j (api.update_account a balance nonce p).1 ≡ slot api b j p
  pub create_valid :
      (a : Address) (code : Bytes) (p : P)
      → IsValid p
      → api.exist a p ≡ false
      → (api.create_contract a code p).0 ≡ ok tt
      → IsValid (api.create_contract a code p).1
  pub create_slot :
      (a b : Address) (j : H256) (code : Bytes) (p : P)
      → IsValid p
      → api.exist a p ≡ false
      → (api.create_contract a code p).0 ≡ ok tt
      → slot api b j (api.create_contract a code p).1 ≡ slot api b j p
