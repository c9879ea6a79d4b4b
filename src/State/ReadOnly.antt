-- ===== src/State/ReadOnly.antt =====
-- The methods of the cache in durian/src/state.rs, `update_state` apart, and the blockchain under it.
use durian.Base.{◌≡◌, refl, ◌∙◌, Bool, Option, none, some, Bytes}
use durian.Exec.{modify}
use durian.Exec.Steps.{Steps, IsPreorder, Steps-modify, steps_rules}
use durian.Types.{Address, H256}
use durian.Provider.{Provider}
use durian.State.{
  State, AccountInfo, put_account, fetch_account, account_mut, account, balance, cache_storage,
  fetch_storage, storage_at, set_storage, init_code,
}

abbrev pub SameProvider : {P : Type 0} → State P → State P → Type 0
SameProvider s t = t.provider ≡ s.provider

module _ {P : Type 0} where
  instance abbrev same_provider : IsPreorder (SameProvider {P = P})
  same_provider = record { same = λ s. refl; chain = λ s t u p q. q ∙ p }

  put_account-SameProvider :
      (a : Address) (entry : AccountInfo × Bool)
      → Steps SameProvider (modify (put_account {P = P} a entry))
  unfolding put_account
  put_account-SameProvider a entry = Steps-modify (put_account a entry) (λ s. refl)

ruleset cache_rules = (steps_rules, put_account-SameProvider)

module _ {P : Type 0} ⦃api : Provider P⦄ where
  fetch_account-SameProvider : (a : Address) → Steps SameProvider (fetch_account {P = P} a)
  unfolding fetch_account
  fetch_account-SameProvider a = search cache_rules

  account_mut-SameProvider : (a : Address) → Steps SameProvider (account_mut {P = P} a)
  unfolding account_mut
  account_mut-SameProvider a = search (cache_rules, fetch_account-SameProvider)

  account-SameProvider : (a : Address) → Steps SameProvider (account {P = P} a)
  unfolding account
  account-SameProvider a = search (cache_rules, fetch_account-SameProvider)

  pub balance-SameProvider : (a : Address) → Steps SameProvider (balance {P = P} a)
  unfolding balance
  balance-SameProvider a = search (cache_rules, account-SameProvider)

  cache_storage-SameProvider :
      (a : Address) (k : H256) (found : Option H256)
      → Steps SameProvider (cache_storage {P = P} a k found)
  unfolding cache_storage
  cache_storage-SameProvider a k none = search cache_rules
  cache_storage-SameProvider a k (some v) = search (cache_rules, account_mut-SameProvider)

  fetch_storage-SameProvider :
      (a : Address) (k : H256) → Steps SameProvider (fetch_storage {P = P} a k)
  unfolding fetch_storage
  fetch_storage-SameProvider a k =
      search (cache_rules, account-SameProvider, cache_storage-SameProvider)

  pub storage_at-SameProvider :
      (a : Address) (k : H256) → Steps SameProvider (storage_at {P = P} a k)
  unfolding storage_at
  storage_at-SameProvider a k =
      search (cache_rules, fetch_storage-SameProvider, account-SameProvider)

  pub set_storage-SameProvider :
      (a : Address) (k v : H256) → Steps SameProvider (set_storage {P = P} a k v)
  unfolding set_storage
  set_storage-SameProvider a k v = search (cache_rules, account_mut-SameProvider)

  pub init_code-SameProvider :
      (a : Address) (code : Bytes) → Steps SameProvider (init_code {P = P} a code)
  unfolding init_code
  init_code-SameProvider a code = search (cache_rules, account_mut-SameProvider)

pub ruleset state_rules = (balance-SameProvider, storage_at-SameProvider, set_storage-SameProvider)
