-- ===== src/Blockchain.antt =====
-- examples/blockchain: a blockchain in memory that implements the `Provider` trait. Accounts are kept
-- under an alias and found by address, in the order in which the map is walked. Panics of `unwrap`
-- are the outcome `panicked`.
pub mod Blocks
pub mod Growth
pub mod Records
pub mod Reinstall
pub mod Storage
pub mod Store
use durian.Base.{
  ℕ, ◌+◌, ◌^◌, ltb, Bool, true, false, Option, none, some, List, [], ◌∷◌, ◌++◌, if◌then◌else◌,
  Bytes, codes, bytes_eq, bytes_has_eq, length, get_elem?,
}
use durian.Decimal.{decimal}
use durian.Error.{Error}
use durian.Exec.{
  Outcome, ok, err, panicked, Exec, unwrap, unwrap_option, and_then, pure, lift, query, modify,
  ◌>>=◌, ◌>>◌,
}
use durian.HashMap.{HashMap, get, insert}
use durian.Types.{Address, H256, zero_hash}
use durian.Provider.{Provider, StateAccount}
use durian.Transaction.{Transaction, Action}
use durian.Execute.{ResultData}

-- examples/blockchain/src/account.rs
pub record Account : Type 0 where
  pub address : Address
  pub nonce : ℕ
  pub balance : ℕ
  pub code : Bytes
  pub storage : HashMap H256 H256

-- `Account::new(addr, bal, nonce, code)`
unfoldable pub new_account : Address → ℕ → ℕ → Bytes → Account
new_account addr bal nonce code = record {
  address = addr;
  nonce = nonce;
  balance = bal;
  code = code;
  storage = [];
}

-- examples/blockchain/src/block.rs; a time is its seconds since the epoch.
pub record Block : Type 0 where
  pub num : ℕ
  pub prev : H256
  pub time : ℕ

-- What the example calls in other crates: sha3, bincode and primitive-types.
pub record ChainCrates : Type 0 where
  pub keccak256 : Bytes → H256
  pub serialize : Block → Bytes
  pub to_little_endian : ℕ → Bytes
  pub u256_add : ℕ → ℕ → Outcome ℕ

-- examples/blockchain/src/blockchain.rs
pub record Blockchain : Type 0 where
  pub blocks : List Block
  pub accounts : HashMap Bytes Account
  pub counter : ℕ
  pub transactions : HashMap H256 (Transaction × ResultData)

abbrev pub last? : List Block → Option Block
last? [] = none
last? (b ∷ []) = some b
last? (b ∷ c ∷ r) = last? (c ∷ r)

module _ ⦃crates : ChainCrates⦄ where
  unfoldable pub block_hash : Block → H256
  block_hash b = crates.keccak256 (crates.serialize b)

  action_bytes : Action → Bytes
  action_bytes (Action.create code salt) = code ++ salt
  action_bytes (Action.call address) = address

  unfoldable pub transaction_hash : Transaction → H256
  unfolding action_bytes
  transaction_hash transaction = crates.keccak256 (
      transaction.sender
      ++ (crates.to_little_endian transaction.value
          ++ (crates.to_little_endian transaction.gas
              ++ (crates.to_little_endian transaction.gas_price
                  ++ (action_bytes transaction.action ++ transaction.args)))))

  -- `Blockchain::commit`, with the time of the new block.
  unfoldable pub commit : ℕ → Exec Blockchain Unit
  unfolding block_hash
  commit now = do
    last ← query (λ bc. unwrap_option (last? bc.blocks))
    modify (λ bc. record bc {
      blocks =
          bc.blocks ++ record { num = length bc.blocks; prev = block_hash last; time = now } ∷ [];
    })

  unfoldable pub add_transactions : Transaction → ResultData → Exec Blockchain H256
  unfolding transaction_hash
  add_transactions transaction result = do
    let txhash = transaction_hash transaction
    modify (λ bc. record bc { transactions = insert txhash (transaction, result) bc.transactions })
    pure txhash

  unfoldable pub latest_block_hash : Blockchain → Outcome H256
  unfolding block_hash
  latest_block_hash bc = and_then (unwrap_option (last? bc.blocks)) λ b. ok (block_hash b)

  unfoldable pub block_hash_at : ℕ → Blockchain → Outcome H256
  unfolding block_hash
  block_hash_at num bc = and_then (unwrap_option (get_elem? bc.blocks num)) λ b. ok (block_hash b)

-- `Blockchain::new`: the addresses of the first four accounts are drawn at random, the last is
-- given in the source.
unfoldable pub new_blockchain : ℕ → Address → Address → Address → Address → Address → Blockchain
unfolding new_account
new_blockchain now alice bob carol dave naga = record {
  blocks = record { num = 0; prev = zero_hash; time = now } ∷ [];
  accounts =
      (codes "alice", new_account alice 1000000 0 [])
      ∷ (codes "bob", new_account bob 1000000 0 [])
      ∷ (codes "carol", new_account carol 1000000 0 [])
      ∷ (codes "dave", new_account dave 1000000 0 [])
      ∷ (codes "naga", new_account naga 1000000 0 [])
      ∷ [];
  counter = 0;
  transactions = [];
}

unfoldable pub address_from_alias : Bytes → Blockchain → Outcome Address
address_from_alias alias bc = and_then (unwrap_option (get alias bc.accounts)) λ acc. ok acc.address

unfoldable pub code : Bytes → Blockchain → Outcome Bytes
code alias bc = and_then (unwrap_option (get alias bc.accounts)) λ acc. ok acc.code

-- The first account with the address, with its alias.
unfoldable pub find_account : Address → HashMap Bytes Account → Option (Bytes × Account)
find_account address [] = none
find_account address ((alias, acc) ∷ rest) =
    if bytes_eq acc.address address then some (alias, acc) else find_account address rest

-- A write to the first account with the address.
unfoldable pub change_account :
    Address → (Account → Account) → HashMap Bytes Account → HashMap Bytes Account
change_account address f [] = []
change_account address f ((alias, acc) ∷ rest) =
    if bytes_eq acc.address address
    then (alias, f acc) ∷ rest
    else (alias, acc) ∷ change_account address f rest

unfoldable pub account : Address → Blockchain → Outcome Account
account address bc = elim (find_account address bc.accounts) [
  | none ↦ err (Error.invalid_address address)
  | some found ↦ ok found.1
]

unfoldable pub balance : Address → Blockchain → Outcome ℕ
balance address bc = and_then (unwrap (account address bc)) λ acc. ok acc.balance

unfoldable pub code_at : Address → Blockchain → Outcome Bytes
code_at address bc = and_then (unwrap (account address bc)) λ acc. ok acc.code

-- `self.account_mut(address).unwrap()` and a write through it.
unfoldable pub change_unwrapped : Address → (Account → Account) → Exec Blockchain Unit
change_unwrapped address f = do
  acc ← query (λ bc. unwrap (account address bc))
  modify (λ bc. record bc { accounts = change_account address f bc.accounts })

unfoldable pub inc_nonce : ⦃crates : ChainCrates⦄ → Bytes → Exec Blockchain Unit
inc_nonce ⦃crates⦄ alias = do
  acc ← query (λ bc. unwrap_option (get alias bc.accounts))
  next ← lift (crates.u256_add acc.nonce 1)
  modify (λ bc. record bc { accounts = insert alias (record acc { nonce = next }) bc.accounts })

unfoldable pub get_transaction_details : H256 → Blockchain → Outcome (Transaction × ResultData)
get_transaction_details hash bc = unwrap_option (get hash bc.transactions)

-- `unwrap` on the last block, which `new` puts there.
unfoldable pub block_number : Blockchain → ℕ
block_number bc = elim (last? bc.blocks) [ none ↦ 0 | some b ↦ b.num ]

unfoldable pub exist : Address → Blockchain → Bool
exist address bc = elim (account address bc) [ ok _ ↦ true | _ ↦ false ]

unfoldable pub provider_account : Address → Blockchain → Outcome StateAccount
provider_account address bc =
    and_then (account address bc)
      λ acc. ok (record { nonce = acc.nonce; balance = acc.balance; code = acc.code })

-- A counter past the range of `i32` panics, as in a build with overflow checks.
unfoldable pub create_contract : Address → Bytes → Exec Blockchain Unit
unfolding new_account
create_contract address code bc =
    if ltb (bc.counter + 1) (2 ^ 31)
    then (
      ok tt,
      record bc {
        accounts =
            insert (codes "contract_" ++ decimal (bc.counter + 1)) (new_account address 0 0 code)
              bc.accounts;
        counter = bc.counter + 1;
      },
    )
    else (panicked, bc)

unfoldable pub storage_at : Address → H256 → Blockchain → Outcome H256
storage_at address key bc = and_then (account address bc) λ acc. elim (get key acc.storage) [
  | some storage ↦ ok storage
  | none ↦ err (Error.invalid_storage_key key)
]

unfoldable pub set_storage : Address → H256 → H256 → Exec Blockchain Unit
set_storage address key value =
    change_unwrapped address (λ acc. record acc { storage = insert key value acc.storage })

unfoldable pub update_account : Address → ℕ → ℕ → Exec Blockchain Unit
update_account address bal nonce =
    change_unwrapped address (λ acc. record acc { balance = bal; nonce = nonce })

abbrev last_time : Blockchain → ℕ
last_time bc = elim (last? bc.blocks) [ none ↦ 0 | some b ↦ b.time ]

-- `impl Provider for Blockchain`
instance abbrev pub chain_provider : ⦃crates : ChainCrates⦄ → Provider Blockchain
chain_provider = record {
  exist = exist;
  account = provider_account;
  update_account = update_account;
  create_contract = create_contract;
  storage_at = storage_at;
  set_storage = set_storage;
  timestamp = last_time;
  block_number = block_number;
  block_hash = block_hash_at;
  block_author = address_from_alias (codes "alice");
  difficulty = λ bc. err Error.not_supported;
  gas_limit = λ bc. ok 1000000;
}
