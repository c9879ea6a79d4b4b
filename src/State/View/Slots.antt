-- ===== src/State/View/Slots.antt =====
-- The slots that the cache of durian/src/state.rs shows, under its reads and writes.
use durian.Base.{
  ◌≡◌, refl, Option, none, some, arith, ◌&&◌, Bool-cases, if◌then◌else◌, bytes_eq, bytes_eq_iff,
  bytes_has_eq, Bytes, Bool, inl, inr,
}
use durian.Exec.{Outcome, ok, err, panicked, if_ok, and_then, ◌>>=◌, unwrapped}
use durian.HashMap.{get, get-insert, contains_key}
use durian.Types.{Address, H256}
use durian.Provider.{Provider}
use durian.State.{
  State, AccountInfo, put_account, account, set_storage, init_code, fetch_storage, cache_storage,
  storage_at,
}
use durian.State.View.{
  cached_slot, recoded, entry_at, slot_value, value_at, entry_at-put_account,
  entry_at-fetch_account, provider-fetch_account, account_mut-eq-entry_at, state-account_mut,
  unwrap-entry_at, account-eq-entry_at, entry_at-set_storage, provider-set_storage,
  provider-account, entry_at-account,
}

module _ {P : Type 0} ⦃api : Provider P⦄ where
  pub provider-fetch_storage :
      (a : Address) (k : H256) (s : State P) → (fetch_storage a k s).1.provider ≡ s.provider
  unfolding fetch_storage cache_storage put_account ◌>>=◌
  provider-fetch_storage a k s =
      grind (arith, provider-account, state-account_mut, provider-fetch_account)

  entry_at-cache_storage :
      (a b : Address) (k : H256) (found : Option H256) (s : State P)
      → entry_at b (cache_storage a k found s).1 ≡ (
          if bytes_eq a b
          then and_then (entry_at a s) (λ e. ok (cached_slot found k e))
          else entry_at b s)
  unfolding cache_storage ◌>>=◌
  entry_at-cache_storage a b k none s = grind (arith, bytes_eq_iff a b)
  entry_at-cache_storage a b k (some v) s = grind (
    arith,
    account_mut-eq-entry_at,
    state-account_mut,
    entry_at-fetch_account,
    entry_at-put_account,
    bytes_eq_iff a b,
  )

  -- What a fetch of a slot makes of the entry of its address.
  abbrev pub filled : Address → H256 → P → AccountInfo × Bool → Outcome (AccountInfo × Bool)
  filled a k p e =
      if contains_key k e.0.storage
      then ok e
      else elim (if_ok (api.storage_at a k p)) [ ok found ↦ ok (cached_slot found k e) | _ ↦ ok e ]

  pub entry_at-fetch_storage :
      (a b : Address) (k : H256) (s : State P)
      → entry_at b (fetch_storage a k s).1
        ≡ (if bytes_eq a b then and_then (entry_at a s) (filled a k s.provider) else entry_at b s)
  unfolding fetch_storage ◌>>=◌
  entry_at-fetch_storage a b k s = grind (
    arith,
    account-eq-entry_at,
    entry_at-account,
    provider-account,
    entry_at-cache_storage,
    bytes_eq_iff a b,
  )

  value_filled :
      (a : Address) (k j : H256) (p : P) (e : AccountInfo × Bool)
      → and_then (filled a k p e) (λ e'. slot_value a j p (get j e'.0.storage))
        ≡ slot_value a j p (get j e.0.storage)
  unfolding contains_key
  value_filled a k j p e = grind (arith, get-insert, bytes_eq_iff k j)

  value_through :
      (a : Address) (k j : H256) (p : P) (o : Outcome (AccountInfo × Bool))
      → and_then (and_then o (filled a k p)) (λ e. slot_value a j p (get j e.0.storage))
        ≡ and_then o (λ e. slot_value a j p (get j e.0.storage))
  value_through a k j p (ok e) = value_filled a k j p e
  value_through a k j p (err e) = refl
  value_through a k j p panicked = refl

  value_at-fetch_storage_self :
      (a : Address) (k j : H256) (s : State P)
      → value_at a j (fetch_storage a k s).1 ≡ value_at a j s
  unfolding value_at
  value_at-fetch_storage_self a k j s =
      rw (entry_at-fetch_storage a a k s, provider-fetch_storage a k s, (bytes_eq_iff a a).1 refl)
        (value_through a k j s.provider (entry_at a s))

  -- Caching a slot changes no value that a read returns.
  value_at-fetch_storage :
      (a b : Address) (k j : H256) (s : State P)
      → value_at b j (fetch_storage a k s).1 ≡ value_at b j s
  value_at-fetch_storage a b k j s = elim (Bool-cases (bytes_eq a b)) [
    | inl e ↦ rw (← (bytes_eq_iff a b).0 e) (value_at-fetch_storage_self a k j s)
    | inr e ↦
        unfold value_at in rw (entry_at-fetch_storage a b k s, provider-fetch_storage a k s, e)
  ]

  value_at-account :
      (a b : Address) (j : H256) (s : State P) → value_at b j (account a s).1 ≡ value_at b j s
  unfolding value_at
  value_at-account a b j s = rw (entry_at-account a b s, provider-account a s)

  result-cache_storage :
      (a : Address) (k : H256) (found : Option H256) (s : State P)
      → (cache_storage a k found s).0
        ≡ elim found [ none ↦ ok tt | some _ ↦ and_then (entry_at a s) (λ _. ok tt) ]
  unfolding cache_storage ◌>>=◌
  result-cache_storage a k none s = refl
  result-cache_storage a k (some v) s = grind (arith, account_mut-eq-entry_at)

  result-fetch_storage :
      (a : Address) (k : H256) (s : State P)
      → (fetch_storage a k s).0
        ≡ and_then (entry_at a s) (λ e.
          if contains_key k e.0.storage
          then ok tt
          else and_then (if_ok (api.storage_at a k s.provider)) (λ _. ok tt))
  unfolding fetch_storage ◌>>=◌
  result-fetch_storage a k s =
      grind (arith, account-eq-entry_at, entry_at-account, provider-account, result-cache_storage)

  -- What `storage_at` returns is the value of the slot in the view: the cached one, or else what the
  -- provider has, or else zero.
  pub storage_at-eq-value_at :
      (a : Address) (k : H256) (s : State P) → (storage_at a k s).0 ≡ value_at a k s
  unfolding storage_at value_at contains_key ◌>>=◌
  storage_at-eq-value_at a k s = grind (
    arith,
    result-fetch_storage a k s,
    entry_at-fetch_storage a a k s,
    account-eq-entry_at,
    bytes_eq_iff a a,
    get-insert,
    bytes_eq_iff k k,
  )

  -- A read changes the value of no slot.
  pub value_at-storage_at :
      (a b : Address) (k j : H256) (s : State P)
      → value_at b j (storage_at a k s).1 ≡ value_at b j s
  unfolding storage_at ◌>>=◌
  value_at-storage_at a b k j s = grind (arith, value_at-fetch_storage, value_at-account)

  pub value_at-set_storage :
      (a b : Address) (k j v : H256) (s : State P)
      → value_at b j (set_storage a k v s).1 ≡ (
          if bytes_eq a b && bytes_eq k j
          then and_then (entry_at a s) (λ _. ok v)
          else value_at b j s)
  unfolding value_at
  value_at-set_storage a b k j v s = grind (
    arith,
    entry_at-set_storage,
    provider-set_storage,
    get-insert,
    bytes_eq_iff a b,
    bytes_eq_iff k j,
  )

  pub result-set_storage :
      (a : Address) (k v : H256) (s : State P)
      → (set_storage a k v s).0 ≡ and_then (entry_at a s) (λ _. ok tt)
  unfolding set_storage unwrapped ◌>>=◌
  result-set_storage a k v s = grind (arith, account_mut-eq-entry_at, unwrap-entry_at a s)

  -- A write that returns sets its slot and no other.
  pub value_at-set_storage_ok :
      (a b : Address) (k j v : H256) (s : State P)
      → (set_storage a k v s).0 ≡ ok tt
      → value_at b j (set_storage a k v s).1
        ≡ (if bytes_eq a b && bytes_eq k j then ok v else value_at b j s)
  value_at-set_storage_ok a b k j v s h =
      grind (arith, value_at-set_storage a b k j v s, result-set_storage a k v s)

  entry_at-init_code :
      (a b : Address) (code : Bytes) (s : State P)
      → entry_at b (init_code a code s).1
        ≡ (if bytes_eq a b then and_then (entry_at a s) (recoded code) else entry_at b s)
  unfolding init_code unwrapped ◌>>=◌
  entry_at-init_code a b code s = grind (
    arith,
    account_mut-eq-entry_at,
    state-account_mut,
    entry_at-fetch_account,
    entry_at-put_account,
    bytes_eq_iff a b,
  )

  provider-init_code :
      (a : Address) (code : Bytes) (s : State P) → (init_code a code s).1.provider ≡ s.provider
  unfolding init_code unwrapped put_account ◌>>=◌
  provider-init_code a code s = grind (arith, state-account_mut, provider-fetch_account)

  -- Setting the code of an account changes no value that a read returns.
  pub value_at-init_code :
      (a b : Address) (code : Bytes) (j : H256) (s : State P)
      → value_at b j (init_code a code s).1 ≡ value_at b j s
  unfolding value_at
  value_at-init_code a b code j s =
      grind (arith, entry_at-init_code, provider-init_code, bytes_eq_iff a b)
