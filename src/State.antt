-- ===== src/State.antt =====
-- durian/src/state.rs: the cache of accounts and storage between the virtual machine and the
-- blockchain's `Provider`. A cached account and a cached storage value each carry a flag that says
-- whether they are to be written back. Methods on `&mut self` are computations on the record.
pub mod View
pub mod Commit
pub mod Coherent
pub mod ReadOnly
pub mod Sized
pub mod Twins
use durian.Base.{
  ℕ, Bool, true, false, Option, none, some, [], ◌∷◌, if◌then◌else◌, Bytes, bytes_has_eq,
}
use durian.Exec.{
  Outcome, Exec, unwrap_option, if_ok, pure, query, gets, modify, unwrapped, on_field, ◌>>=◌, ◌>>◌,
}
use durian.HashMap.{HashMap, get, insert, contains_key}
use durian.Types.{Address, H256, zero_hash}
use durian.Provider.{Provider, StateAccount}

pub record AccountInfo : Type 0 where
  pub nonce : ℕ
  pub balance : ℕ
  pub code : Bytes
  pub storage : HashMap H256 (H256 × Bool)

-- `AccountInfo::new(nonce, balance, code)`
unfoldable pub new_account : ℕ → ℕ → Bytes → AccountInfo
new_account nonce balance code = record {
  nonce = nonce;
  balance = balance;
  code = code;
  storage = [];
}

pub record State (P : Type 0) : Type 0 where
  pub provider : P
  pub accounts : HashMap Address (AccountInfo × Bool)

-- `State::new`
unfoldable pub new_state : {P : Type 0} → P → State P
new_state p = record { provider = p; accounts = [] }

abbrev pub set_provider : {P : Type 0} → P → State P → State P
set_provider p s = record s { provider = p }

-- The entry that a newly met account gets, by what the provider answers. The source passes
-- `acc.balance, acc.nonce` to `AccountInfo::new(nonce, balance, ..)`, in this order.
unfoldable pub fetched_account : Option StateAccount → AccountInfo
unfolding new_account
fetched_account (some acc) = new_account acc.balance acc.nonce acc.code
fetched_account none = new_account 0 1 []

-- `self.accounts.insert(address, entry)`, and a write through `get_mut`
unfoldable pub put_account : {P : Type 0} → Address → AccountInfo × Bool → State P → State P
put_account address entry s = record s { accounts = insert address entry s.accounts }

abbrev pub set_slot : H256 → H256 × Bool → AccountInfo → AccountInfo
set_slot key entry acc = record acc { storage = insert key entry acc.storage }

abbrev pub value_or_zero : Option (H256 × Bool) → H256
value_or_zero none = zero_hash
value_or_zero (some v) = v.0

module _ {P : Type 0} ⦃api : Provider P⦄ where
  unfoldable pub fetch_account : Address → Exec (State P) Unit
  fetch_account address = do
    known ← gets (λ s. contains_key address s.accounts)
    if known then pure tt else do
      found ← query (λ s. if_ok (api.account address s.provider))
      modify (put_account address (fetched_account found, false))

  unfoldable pub account_mut : Address → Exec (State P) (AccountInfo × Bool)
  account_mut address = do
    fetch_account address
    query (λ s. unwrap_option (get address s.accounts))

  unfoldable pub account : Address → Exec (State P) AccountInfo
  account address = do
    fetch_account address
    acc ← query (λ s. unwrap_option (get address s.accounts))
    pure acc.0

  unfoldable pub nonce : Address → Exec (State P) ℕ
  nonce address = do acc ← account address; pure acc.nonce

  unfoldable pub balance : Address → Exec (State P) ℕ
  balance address = do acc ← account address; pure acc.balance

  unfoldable pub exist : Address → State P → Bool
  exist address s = api.exist address s.provider

  -- As in the source, the block number and not the provider's `timestamp`.
  unfoldable pub timestamp : State P → ℕ
  timestamp s = api.block_number s.provider

  unfoldable pub block_number : State P → ℕ
  block_number s = api.block_number s.provider

  unfoldable pub block_hash : ℕ → State P → Outcome H256
  block_hash block_no s = api.block_hash block_no s.provider

  unfoldable pub block_author : State P → Outcome Address
  block_author s = api.block_author s.provider

  unfoldable pub difficulty : State P → Outcome ℕ
  difficulty s = api.difficulty s.provider

  unfoldable pub gas_limit : State P → Outcome ℕ
  gas_limit s = api.gas_limit s.provider

  -- `if let Ok(value) = .. { .. } else { debug!(..) }`
  unfoldable pub cache_storage : Address → H256 → Option H256 → Exec (State P) Unit
  cache_storage address key none = pure tt
  cache_storage address key (some value) = do
    acc ← account_mut address
    modify (put_account address (set_slot key (value, false) acc.0, acc.1))

  unfoldable pub fetch_storage : Address → H256 → Exec (State P) Unit
  fetch_storage address key = do
    acc ← account address
    if contains_key key acc.storage then pure tt else do
      found ← query (λ s. if_ok (api.storage_at address key s.provider))
      cache_storage address key found

  unfoldable pub storage_at : Address → H256 → Exec (State P) H256
  storage_at address key = do
    fetch_storage address key
    acc ← account address
    pure (value_or_zero (get key acc.storage))

  unfoldable pub set_storage : Address → H256 → H256 → Exec (State P) Unit
  set_storage address key value = do
    acc ← unwrapped (account_mut address)
    modify (put_account address (set_slot key (value, true) acc.0, acc.1))

  unfoldable pub init_code : Address → Bytes → Exec (State P) Unit
  init_code address code = do
    acc ← unwrapped (account_mut address)
    modify (put_account address (record acc.0 { code = code }, true))

  -- The inner loop of `update_state`, over the storage of one account.
  unfoldable pub update_storage : Address → HashMap H256 (H256 × Bool) → Exec P Unit
  update_storage addr [] = pure tt
  update_storage addr ((key, (value, modified)) ∷ rest) = do
    if modified then api.set_storage addr key value else pure tt
    update_storage addr rest

  unfoldable pub update_account : Address → AccountInfo → Exec P Unit
  update_account addr acc = do
    known ← gets (api.exist addr)
    if known
        then api.update_account addr acc.balance acc.nonce
        else api.create_contract addr acc.code

  -- The outer loop of `update_state`, over the cached accounts.
  unfoldable pub update_accounts : HashMap Address (AccountInfo × Bool) → Exec P Unit
  update_accounts [] = pure tt
  update_accounts ((addr, (acc, modified)) ∷ rest) = do
    if modified then update_account addr acc else pure tt
    update_storage addr acc.storage
    update_accounts rest

  unfoldable pub update_state : Exec (State P) Unit
  update_state = do
    accounts ← gets (λ s. s.accounts)
    on_field (λ s. s.provider) set_provider (update_accounts accounts)
