-- ===== src/State/Twins.antt =====
-- The cache of durian/src/state.rs over two providers that cannot be told apart: every method does
-- the same over both. Its addresses and keys, and the values it is to write, have their lengths.
pub mod Written
use durian.Base.{
  ◌≡◌, refl, Bool, true, false, Option, none, some, arith, bytes_has_eq, Bytes, length,
}
use durian.Exec.{ok, ◌>>=◌, unwrapped, modify}
use durian.Exec.Bind.{unwrapped-eq-ok}
use durian.Exec.Same.{
  Same, Same-modify, Same-queries, Same-gets, Same-pure, Same-bind, Same-bind_knowing, Same-if,
  Same-unwrapped, same_rules,
}
use durian.HashMap.{contains_key}
use durian.Types.{Address, H256}
use durian.Provider.{Provider}
use durian.Provider.Twins.{AreTwins}
use durian.State.{
  State, AccountInfo, put_account, fetch_account, fetched_account, account_mut, account, balance,
  cache_storage, fetch_storage, storage_at, set_storage, init_code, set_slot,
}
use durian.State.Sized.{
  put_account-IsSizedCache, IsSizedEntry, IsSizedCache, insert-AreSizedSlots, get-IsSizedEntry,
}
use durian.State.Coherent.Kept.{storage-fetched_account}

module _ {P : Type 0} {Updates : Type 0} {IsValid : P → Type 0} where
  Same-put_account :
      (a : Address) (entry : AccountInfo × Bool)
      → length a ≡ 20
      → IsSizedEntry Updates entry
      → Same
          (IsSizedCache Updates IsValid)
          (modify (put_account a entry))
          (modify (put_account a entry))
  Same-put_account a entry ha he =
      Same-modify (put_account a entry) (λ s h. put_account-IsSizedCache a entry s ha he h)

module _ {P : Type 0} (api twin : Provider P) {IsValid : P → Type 0} {Updates AsksBlock : Type 0}
    (twins : AreTwins api twin IsValid Updates AsksBlock) where
  fetch_account-Same :
      (a : Address)
      → length a ≡ 20
      → Same
          (IsSizedCache Updates IsValid)
          (fetch_account ⦃api = api⦄ a)
          (fetch_account ⦃api = twin⦄ a)
  unfolding fetch_account
  fetch_account-Same a ha = Same-bind _ _ _ _ (Same-gets _) λ known.
      Same-if known _ _ _ _ (Same-pure tt) (
        Same-bind _ _ _ _
          (Same-queries _ _ (λ s h. rw (twins.account a s.provider h.provider ha) refl))
          λ found.
            Same-put_account a (fetched_account found, false) ha
              (rw (storage-fetched_account found) (tt, λ n. cc)))

  account_mut-Same :
      (a : Address)
      → length a ≡ 20
      → Same (IsSizedCache Updates IsValid) (account_mut ⦃api = api⦄ a) (account_mut ⦃api = twin⦄ a)
  unfolding account_mut
  account_mut-Same a ha = search (same_rules, fetch_account-Same)

  account-Same :
      (a : Address)
      → length a ≡ 20
      → Same (IsSizedCache Updates IsValid) (account ⦃api = api⦄ a) (account ⦃api = twin⦄ a)
  unfolding account
  account-Same a ha = search (same_rules, fetch_account-Same)

  pub balance-Same :
      (a : Address)
      → length a ≡ 20
      → Same (IsSizedCache Updates IsValid) (balance ⦃api = api⦄ a) (balance ⦃api = twin⦄ a)
  unfolding balance
  balance-Same a ha = search (same_rules, account-Same)

  entry_known :
      (a : Address) (s : State P) (entry : AccountInfo × Bool)
      → length a ≡ 20
      → IsSizedCache Updates IsValid s
      → (account_mut ⦃api = twin⦄ a s).0 ≡ ok entry
      → IsSizedEntry Updates entry
  unfolding account_mut ◌>>=◌
  entry_known a s entry ha h e =
      let t = (fetch_account ⦃api = twin⦄ a s).1 in
      let ht : IsSizedCache Updates IsValid t = ((fetch_account-Same a ha).at s h).1 in
      get-IsSizedEntry a entry t.accounts ht.accounts (ground arith)

  -- A write to the entry of an address.
  change_entry-Same :
      (a : Address) (f : AccountInfo × Bool → AccountInfo × Bool)
      → length a ≡ 20
      → ((entry : AccountInfo × Bool) → IsSizedEntry Updates entry → IsSizedEntry Updates (f entry))
      → Same
          (IsSizedCache Updates IsValid)
          (account_mut ⦃api = api⦄ a >>= λ entry. modify (put_account a (f entry)))
          (account_mut ⦃api = twin⦄ a >>= λ entry. modify (put_account a (f entry)))
  change_entry-Same a f ha hf =
      Same-bind_knowing (λ entry. IsSizedEntry Updates entry) _ _ _ _ (account_mut-Same a ha)
        (λ s entry h e. entry_known a s entry ha h e)
        (λ entry he. Same-put_account a (f entry) ha (hf entry he))

  -- The same behind an `unwrap`.
  unwrapped_entry-Same :
      (a : Address) (f : AccountInfo × Bool → AccountInfo × Bool)
      → length a ≡ 20
      → ((entry : AccountInfo × Bool) → IsSizedEntry Updates entry → IsSizedEntry Updates (f entry))
      → Same
          (IsSizedCache Updates IsValid)
          (unwrapped (account_mut ⦃api = api⦄ a) >>= λ entry. modify (put_account a (f entry)))
          (unwrapped (account_mut ⦃api = twin⦄ a) >>= λ entry. modify (put_account a (f entry)))
  unwrapped_entry-Same a f ha hf =
      Same-bind_knowing (λ entry. IsSizedEntry Updates entry) _ _ _ _
        (Same-unwrapped _ _ (account_mut-Same a ha))
        (λ s entry h e.
          entry_known a s entry ha h (unwrapped-eq-ok (account_mut ⦃api = twin⦄ a) s e))
        (λ entry he. Same-put_account a (f entry) ha (hf entry he))

  cache_storage-Same :
      (a : Address) (k : H256) (found : Option H256)
      → length a ≡ 20
      → length k ≡ 32
      → Same
          (IsSizedCache Updates IsValid)
          (cache_storage ⦃api = api⦄ a k found)
          (cache_storage ⦃api = twin⦄ a k found)
  unfolding cache_storage
  cache_storage-Same a k none ha hk = Same-pure tt
  cache_storage-Same a k (some v) ha hk =
      change_entry-Same a (λ entry. (set_slot k (v, false) entry.0, entry.1)) ha
        (λ entry he. (insert-AreSizedSlots k v false entry.0.storage hk (λ n. cc) he.0, he.1))

  fetch_storage-Same :
      (a : Address) (k : H256)
      → length a ≡ 20
      → length k ≡ 32
      → Same
          (IsSizedCache Updates IsValid)
          (fetch_storage ⦃api = api⦄ a k)
          (fetch_storage ⦃api = twin⦄ a k)
  unfolding fetch_storage
  fetch_storage-Same a k ha hk = Same-bind _ _ _ _ (account-Same a ha) λ acc.
      Same-if (contains_key k acc.storage) _ _ _ _ (Same-pure tt) (
        Same-bind _ _ _ _
          (Same-queries _ _ (λ s h. rw (twins.storage_at a k s.provider h.provider ha hk) refl))
          λ found. cache_storage-Same a k found ha hk)

  pub storage_at-Same :
      (a : Address) (k : H256)
      → length a ≡ 20
      → length k ≡ 32
      → Same
          (IsSizedCache Updates IsValid)
          (storage_at ⦃api = api⦄ a k)
          (storage_at ⦃api = twin⦄ a k)
  unfolding storage_at
  storage_at-Same a k ha hk = search (same_rules, fetch_storage-Same, account-Same)

  pub set_storage-Same :
      (a : Address) (k v : H256)
      → length a ≡ 20
      → length k ≡ 32
      → length v ≡ 32
      → Same
          (IsSizedCache Updates IsValid)
          (set_storage ⦃api = api⦄ a k v)
          (set_storage ⦃api = twin⦄ a k v)
  unfolding set_storage
  set_storage-Same a k v ha hk hv =
      unwrapped_entry-Same a (λ entry. (set_slot k (v, true) entry.0, entry.1)) ha
        (λ entry he. (insert-AreSizedSlots k v true entry.0.storage hk (λ n. hv) he.0, he.1))

  pub init_code-Same :
      Updates
      → (a : Address) (code : Bytes) → length a ≡ 20
      → Same
          (IsSizedCache Updates IsValid)
          (init_code ⦃api = api⦄ a code)
          (init_code ⦃api = twin⦄ a code)
  unfolding init_code
  init_code-Same updates a code ha =
      unwrapped_entry-Same a (λ entry. (record entry.0 { code = code }, true)) ha
        (λ entry he. (he.0, λ n. updates))
