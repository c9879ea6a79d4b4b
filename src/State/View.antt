-- ===== src/State/View.antt =====
-- The cache of durian/src/state.rs as its clients see it: for an address the entry that a lookup
-- finds, for an address and a key the value that a read returns.
pub mod Slots
pub mod Same
use durian.Base.{
  ◌≡◌, Option, none, some, arith, if◌then◌else◌, bytes_eq, bytes_eq_iff, bytes_has_eq, Bytes, Bool,
  true, false,
}
use durian.Exec.{Outcome, ok, if_ok, unwrap, and_then, ◌>>=◌, unwrapped}
use durian.HashMap.{get, get-insert, contains_key}
use durian.Types.{Address, H256}
use durian.Provider.{Provider, StateAccount}
use durian.State.{
  State, AccountInfo, put_account, fetched_account, fetch_account, account_mut, account,
  value_or_zero, set_storage, set_slot, storage_at,
}

abbrev pub fresh_entry : Option StateAccount → Outcome (AccountInfo × Bool)
fresh_entry found = ok (fetched_account found, false)

abbrev pub cached_slot : Option H256 → H256 → AccountInfo × Bool → AccountInfo × Bool
cached_slot none k e = e
cached_slot (some v) k e = (set_slot k (v, false) e.0, e.1)

-- The entry with another code.
abbrev recoded : Bytes → AccountInfo × Bool → Outcome (AccountInfo × Bool)
recoded code e = ok (record e.0 { code = code }, true)

module _ {P : Type 0} ⦃api : Provider P⦄ where
  -- The entry that a lookup of an address finds: the cached one, or else a fresh one.
  unfoldable pub entry_at : Address → State P → Outcome (AccountInfo × Bool)
  entry_at a s = elim (get a s.accounts) [
    | none ↦ and_then (if_ok (api.account a s.provider)) fresh_entry
    | some entry ↦ ok entry
  ]

  abbrev pub fetched_value : Address → H256 → P → Outcome H256
  fetched_value a k p =
      and_then (if_ok (api.storage_at a k p))
        λ found. ok (elim found [ none ↦ value_or_zero none | some v ↦ v ])

  abbrev pub slot_value : Address → H256 → P → Option (H256 × Bool) → Outcome H256
  slot_value a k p none = fetched_value a k p
  slot_value a k p (some v) = ok v.0

  -- The value that a read of a key returns.
  unfoldable pub value_at : Address → H256 → State P → Outcome H256
  value_at a k s =
      and_then (entry_at a s) λ entry. slot_value a k s.provider (get k entry.0.storage)

  pub entry_at-put_account :
      (a b : Address) (entry : AccountInfo × Bool) (s : State P)
      → entry_at b (put_account a entry s) ≡ (if bytes_eq a b then ok entry else entry_at b s)
  unfolding entry_at put_account
  entry_at-put_account a b entry s = ground (arith, get-insert a b entry s.accounts)

  -- Fetching an account changes no entry that a lookup finds.
  pub entry_at-fetch_account :
      (a b : Address) (s : State P) → entry_at b (fetch_account a s).1 ≡ entry_at b s
  unfolding fetch_account contains_key entry_at put_account ◌>>=◌
  entry_at-fetch_account a b s = grind (arith, get-insert, bytes_eq_iff a b)

  pub provider-fetch_account :
      (a : Address) (s : State P) → (fetch_account a s).1.provider ≡ s.provider
  unfolding fetch_account put_account ◌>>=◌
  provider-fetch_account a s = ground arith

  -- `account_mut` returns the entry that a lookup finds, and `unwrap` on it never fails.
  pub account_mut-eq-entry_at : (a : Address) (s : State P) → (account_mut a s).0 ≡ entry_at a s
  unfolding account_mut fetch_account contains_key entry_at put_account ◌>>=◌
  account_mut-eq-entry_at a s = grind (arith, get-insert, bytes_eq_iff a a)

  pub state-account_mut : (a : Address) (s : State P) → (account_mut a s).1 ≡ (fetch_account a s).1
  unfolding account_mut fetch_account put_account ◌>>=◌
  state-account_mut a s = ground arith

  pub unwrap-entry_at : (a : Address) (s : State P) → unwrap (entry_at a s) ≡ entry_at a s
  unfolding entry_at
  unwrap-entry_at a s = ground arith

  pub account-eq-entry_at :
      (a : Address) (s : State P) → (account a s).0 ≡ and_then (entry_at a s) (λ e. ok e.0)
  unfolding account fetch_account contains_key entry_at put_account ◌>>=◌
  account-eq-entry_at a s = grind (arith, get-insert, bytes_eq_iff a a)

  pub state-account : (a : Address) (s : State P) → (account a s).1 ≡ (fetch_account a s).1
  unfolding account fetch_account put_account ◌>>=◌
  state-account a s = ground arith

  pub entry_at-set_storage :
      (a b : Address) (k v : H256) (s : State P)
      → entry_at b (set_storage a k v s).1 ≡ (
          if bytes_eq a b
          then and_then (entry_at a s) (λ e. ok (set_slot k (v, true) e.0, e.1))
          else entry_at b s)
  unfolding set_storage unwrapped ◌>>=◌
  entry_at-set_storage a b k v s = grind (
    arith,
    account_mut-eq-entry_at,
    state-account_mut,
    entry_at-fetch_account,
    entry_at-put_account,
    bytes_eq_iff a b,
  )

  pub provider-set_storage :
      (a : Address) (k v : H256) (s : State P) → (set_storage a k v s).1.provider ≡ s.provider
  unfolding set_storage unwrapped put_account ◌>>=◌
  provider-set_storage a k v s = grind (arith, state-account_mut, provider-fetch_account)

  pub provider-account : (a : Address) (s : State P) → (account a s).1.provider ≡ s.provider
  provider-account a s = grind (arith, state-account, provider-fetch_account)

  pub entry_at-account : (a b : Address) (s : State P) → entry_at b (account a s).1 ≡ entry_at b s
  entry_at-account a b s = grind (arith, state-account, entry_at-fetch_account)
