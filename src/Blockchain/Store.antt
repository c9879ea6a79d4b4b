-- ===== src/Blockchain/Store.antt =====
-- examples/blockchain/src/blockchain.rs as a provider of storage. Accounts of contracts stand under
-- aliases that are numbered, which must not be taken already.
use durian.Base.{
  ℕ, ◌+◌, ◌<◌, ◌^◌, ◌≡◌, ◌≢◌, refl, false, none, some, [], ◌∷◌, ◌++◌, arith, if◌then◌else◌, ◌&&◌,
  Bytes, codes, bytes_eq, bytes_eq_iff, bytes_has_eq,
}
use durian.Exec.{ok, panicked, ◌>>=◌}
use durian.HashMap.{HashMap, get, insert, get-insert}
use durian.Types.{Address, H256}
use durian.Decimal.{decimal, decimal-value}
use durian.Provider.Store.{IsStore, slot}
use durian.Blockchain
use durian.Blockchain.{
  Account, Blockchain, ChainCrates, find_account, change_account, account, change_unwrapped,
  storage_at, set_storage, exist, create_contract, update_account, provider_account, chain_provider,
}
use durian.Blockchain.Storage.{find_account-change_account}

abbrev pub contract_alias : ℕ → Bytes
contract_alias n = codes "contract_" ++ decimal n

-- No account stands under the alias of a contract that is still to be made.
abbrev pub HasFreshAliases : Blockchain → Type 0
HasFreshAliases bc =
    (n : ℕ) → bc.counter < n → n < 2 ^ 31 → get (contract_alias n) bc.accounts ≡ none

append_left_cancel : (xs ys zs : Bytes) → xs ++ ys ≡ xs ++ zs → ys ≡ zs
append_left_cancel [] ys zs h = h
append_left_cancel (x ∷ xs) ys zs h = append_left_cancel xs ys zs (ground arith)

pub contract_alias-injective :
    (m n : ℕ) → m < 2 ^ 31 → n < 2 ^ 31 → contract_alias m ≡ contract_alias n → m ≡ n
contract_alias-injective m n hm hn e =
    let digits : decimal m ≡ decimal n =
      append_left_cancel (codes "contract_") (decimal m) (decimal n) e in
    grind (arith, decimal-value m, decimal-value n)

-- A new entry is met last.
find_account-insert_fresh :
    (b : Address) (alias : Bytes) (acc : Account) (m : HashMap Bytes Account)
    → get alias m ≡ none
    → find_account b (insert alias acc m) ≡ elim (find_account b m) [
      | none ↦ (if bytes_eq acc.address b then some (alias, acc) else none)
      | some x ↦ some x
    ]
unfolding find_account insert get
find_account-insert_fresh b alias acc [] h = ground arith
find_account-insert_fresh b alias acc ((k, acc') ∷ r) h =
    ground (arith, find_account-insert_fresh b alias acc r)

get-change_account :
    (alias : Bytes) (a : Address) (f : Account → Account) (m : HashMap Bytes Account)
    → get alias m ≡ none
    → get alias (change_account a f m) ≡ none
unfolding get change_account
get-change_account alias a f [] h = refl
get-change_account alias a f ((k, acc) ∷ r) h = ground (arith, get-change_account alias a f r)

HasFreshAliases-change_unwrapped :
    (a : Address) (f : Account → Account) (bc : Blockchain)
    → HasFreshAliases bc
    → HasFreshAliases (change_unwrapped a f bc).1
unfolding change_unwrapped ◌>>=◌
HasFreshAliases-change_unwrapped a f bc h n above within =
    ground (arith, h n, get-change_account (contract_alias n) a f bc.accounts)

HasFreshAliases-create_contract :
    (a : Address) (code : Bytes) (bc : Blockchain)
    → HasFreshAliases bc
    → (create_contract a code bc).0 ≡ ok tt
    → HasFreshAliases (create_contract a code bc).1
unfolding create_contract
HasFreshAliases-create_contract a code bc h e n above within = ground (
  arith,
  h n,
  contract_alias-injective (bc.counter + 1) n,
  get-insert (contract_alias (bc.counter + 1)) (contract_alias n)
      (Blockchain.new_account a 0 0 code) bc.accounts,
  bytes_eq_iff (contract_alias (bc.counter + 1)) (contract_alias n),
)

module _ ⦃crates : ChainCrates⦄ where
  slot-set_storage :
      (a b : Address) (k j v : H256) (bc : Blockchain)
      → (set_storage a k v bc).0 ≡ ok tt
      → slot chain_provider b j (set_storage a k v bc).1
        ≡ (if bytes_eq a b && bytes_eq k j then some v else slot chain_provider b j bc)
  unfolding set_storage change_unwrapped account storage_at ◌>>=◌
  slot-set_storage a b k j v bc e =
      grind (arith, find_account-change_account a b, get-insert, bytes_eq_iff a b)

  slot-update_account :
      (a b : Address) (j : H256) (balance nonce : ℕ) (bc : Blockchain)
      → (update_account a balance nonce bc).0 ≡ ok tt
      → slot chain_provider b j (update_account a balance nonce bc).1 ≡ slot chain_provider b j bc
  unfolding update_account change_unwrapped account storage_at ◌>>=◌
  slot-update_account a b j balance nonce bc e =
      grind (arith, find_account-change_account a b, bytes_eq_iff a b)

  slot-create_contract :
      (a b : Address) (j : H256) (code : Bytes) (bc : Blockchain)
      → HasFreshAliases bc
      → exist a bc ≡ false
      → (create_contract a code bc).0 ≡ ok tt
      → slot chain_provider b j (create_contract a code bc).1 ≡ slot chain_provider b j bc
  unfolding create_contract account storage_at exist get
  slot-create_contract a b j code bc h new e = grind (
    arith,
    find_account-insert_fresh b (contract_alias (bc.counter + 1)),
    h (bc.counter + 1),
    bytes_eq_iff a b,
  )

  account_total : (a : Address) (bc : Blockchain) → provider_account a bc ≢ panicked
  unfolding provider_account account
  account_total a bc e = ground arith

  storage_total : (a : Address) (k : H256) (bc : Blockchain) → storage_at a k bc ≢ panicked
  unfolding storage_at account
  storage_total a k bc e = ground arith

  -- The storage of the example blockchain behaves as one, where the aliases of contracts still to be
  -- made are free.
  pub chain_provider-IsStore : IsStore chain_provider HasFreshAliases
  unfolding set_storage update_account
  chain_provider-IsStore = record {
    account_total = λ a p h. account_total a p;
    storage_total = λ a k p h. storage_total a k p;
    set_valid = λ a k v p h e. HasFreshAliases-change_unwrapped a _ p h;
    set_slot = λ a b k j v p h e. slot-set_storage a b k j v p e;
    update_valid = λ a bal nonce p h e. HasFreshAliases-change_unwrapped a _ p h;
    update_slot = λ a b j bal nonce p h e. slot-update_account a b j bal nonce p e;
    create_valid = λ a code p h new e. HasFreshAliases-create_contract a code p h e;
    create_slot = λ a b j code p h new e. slot-create_contract a b j code p h new e;
  }

-- A new blockchain has no contract yet.
pub new_blockchain-HasFreshAliases :
    (now : ℕ) (alice bob carol dave naga : Address)
    → HasFreshAliases (Blockchain.new_blockchain now alice bob carol dave naga)
unfolding Blockchain.new_blockchain get
new_blockchain-HasFreshAliases now alice bob carol dave naga n above within = refl
