-- ===== src/State/Coherent/Kept.antt =====
-- The methods of the cache in durian/src/state.rs, `update_state` apart, on a coherent cache.
use durian.Base.{
  ◌≡◌, ◌⊎◌, Bool-cases, refl, Bool, true, false, Option, none, some, [], arith, bytes_eq_iff,
  bytes_has_eq, inl, inr, Bytes,
}
use durian.Exec.{Outcome, ok, err, panicked, ◌>>=◌, unwrapped, if_ok, pure, query}
use durian.Exec.Steps.{Steps}
use durian.Exec.Bind.{Outcome-cases, >>=-keeps}
use durian.HashMap.{get, contains_key, get-insert, IsMap, insert-IsMap}
use durian.Types.{Address, H256}
use durian.Provider.{Provider, StateAccount}
use durian.Provider.Store.{slot, found}
use durian.State
use durian.State.{
  State, AccountInfo, new_state, put_account, fetch_account, fetched_account, account_mut,
  cache_storage, fetch_storage, set_slot,
}
use durian.State.View.{state-account_mut, state-account, provider-fetch_account}
use durian.State.Coherent.{IsClean, IsCoherent, insert-AreMaps, get-AreMaps}

pub storage-fetched_account : (f : Option StateAccount) → (fetched_account f).storage ≡ []
unfolding fetched_account State.new_account
storage-fetched_account none = refl
storage-fetched_account (some acc) = refl

if_ok-found : (o : Outcome H256) {f : Option H256} → if_ok o ≡ ok f → f ≡ found o
if_ok-found (ok v) e = ground arith
if_ok-found (err er) e = ground arith
if_ok-found panicked e = cc

module _ {P : Type 0} ⦃api : Provider P⦄ where
  pub new_state-IsCoherent : (p : P) → IsCoherent api (new_state p)
  unfolding new_state get
  new_state-IsCoherent p = record { keys = tt; storages = tt; clean = λ a entry h. cc }

  IsCoherent-put_account :
      (a : Address) (entry : AccountInfo × Bool) (s : State P)
      → IsMap entry.0.storage
      → IsClean api a entry.0.storage s.provider
      → IsCoherent api s
      → IsCoherent api (put_account a entry s)
  unfolding put_account
  IsCoherent-put_account a entry s hm hc h = record {
    keys = insert-IsMap a entry s.accounts h.keys;
    storages = insert-AreMaps a entry s.accounts hm h.storages;
    clean =
        λ b e g. grind (arith, get-insert a b entry s.accounts, bytes_eq_iff a b, h.clean b e, hc);
  }

  state-fetch_account :
      (a : Address) (s : State P)
      → ((fetch_account a s).1 ≡ s)
        ⊎ ((f : Option StateAccount) × ((fetch_account a s).1
              ≡ put_account a (fetched_account f, false) s))
  unfolding fetch_account ◌>>=◌
  state-fetch_account a s = elim (Bool-cases (contains_key a s.accounts)) [
    | inl known ↦ inl (rw known refl)
    | inr fresh ↦ elim (Outcome-cases (if_ok (api.account a s.provider))) [
      | inl (f, e) ↦ inr (f, rw (fresh, e) refl)
      | inr (inl (er, e)) ↦ inl (rw (fresh, e) refl)
      | inr (inr e) ↦ inl (rw (fresh, e) refl)
    ]
  ]

  pub IsCoherent-fetch_account :
      (a : Address) (s : State P) → IsCoherent api s → IsCoherent api (fetch_account a s).1
  unfolding get
  IsCoherent-fetch_account a s h = elim (state-fetch_account a s) [
    | inl same ↦ rw same h
    | inr (f, put) ↦ rw put (
        IsCoherent-put_account a (fetched_account f, false) s (rw (storage-fetched_account f) tt)
          (rw (storage-fetched_account f) (λ k v g. cc)) h)
  ]

  IsCoherent-set_slot :
      (a : Address) (entry : AccountInfo × Bool) (k v : H256) (modified flag : Bool) (s : State P)
      → IsCoherent api s
      → get a s.accounts ≡ some entry
      → (modified ≡ false → slot api a k s.provider ≡ some v)
      → IsCoherent api (put_account a (set_slot k (v, modified) entry.0, flag) s)
  IsCoherent-set_slot a entry k v modified flag s h g old =
      IsCoherent-put_account a (set_slot k (v, modified) entry.0, flag) s
        (insert-IsMap k (v, modified) entry.0.storage (get-AreMaps a entry s.accounts h.storages g))
        (λ j w gj. grind (
          arith,
          get-insert k j (v, modified) entry.0.storage,
          bytes_eq_iff k j,
          h.clean a entry g,
          old,
        ))
        h

  get-account_mut :
      (a : Address) (s : State P) {entry : AccountInfo × Bool}
      → (account_mut a s).0 ≡ ok entry
      → get a (fetch_account a s).1.accounts ≡ some entry
  unfolding account_mut ◌>>=◌
  get-account_mut a s e = ground arith

  IsCoherent-account_mut :
      (a : Address) (s : State P) → IsCoherent api s → IsCoherent api (account_mut a s).1
  IsCoherent-account_mut a s h = rw (state-account_mut a s) (IsCoherent-fetch_account a s h)

  -- A write keeps the cache coherent.
  pub IsCoherent-set_storage :
      (a : Address) (k v : H256) (s : State P)
      → IsCoherent api s
      → IsCoherent api (State.set_storage a k v s).1
  unfolding State.set_storage unwrapped ◌>>=◌
  IsCoherent-set_storage a k v s h = elim (Outcome-cases (account_mut a s).0) [
    | inl (entry, e) ↦
        rw (e, state-account_mut a s)
          (IsCoherent-set_slot a entry k v true entry.1 (fetch_account a s).1
            (IsCoherent-fetch_account a s h) (get-account_mut a s e) (λ n. cc))
    | inr (inl (er, e)) ↦ rw e (IsCoherent-account_mut a s h)
    | inr (inr e) ↦ rw e (IsCoherent-account_mut a s h)
  ]

  IsCoherent-cache_storage :
      (a : Address) (k : H256) (v : Option H256) (s : State P)
      → IsCoherent api s
      → (v ≡ none) ⊎ (v ≡ slot api a k s.provider)
      → IsCoherent api (cache_storage a k v s).1
  unfolding cache_storage ◌>>=◌
  IsCoherent-cache_storage a k none s h old = h
  IsCoherent-cache_storage a k (some v) s h old = elim (Outcome-cases (account_mut a s).0) [
    | inl (entry, e) ↦
        rw (e, state-account_mut a s)
          (IsCoherent-set_slot a entry k v false entry.1 (fetch_account a s).1
            (IsCoherent-fetch_account a s h) (get-account_mut a s e)
            (λ n. rw (provider-fetch_account a s) (ground arith)))
    | inr (inl (er, e)) ↦ rw e (IsCoherent-account_mut a s h)
    | inr (inr e) ↦ rw e (IsCoherent-account_mut a s h)
  ]

  IsCoherent-account :
      (a : Address) (s : State P) → IsCoherent api s → IsCoherent api (State.account a s).1
  IsCoherent-account a s h = rw (state-account a s) (IsCoherent-fetch_account a s h)

  -- What a fetch of a slot does where the slot is not cached.
  IsCoherent-fill :
      (a : Address) (k : H256) (s : State P)
      → IsCoherent api s
      → IsCoherent api
          ((query (λ s. if_ok (api.storage_at a k s.provider)) >>= cache_storage a k) s).1
  unfolding ◌>>=◌
  IsCoherent-fill a k s h = elim (Outcome-cases (if_ok (api.storage_at a k s.provider))) [
    | inl (f, e) ↦
        rw e
          (IsCoherent-cache_storage a k f s h (inr (if_ok-found (api.storage_at a k s.provider) e)))
    | inr (inl (er, e)) ↦ rw e h
    | inr (inr e) ↦ rw e h
  ]

  -- Setting the code of a new contract keeps the cache coherent.
  pub IsCoherent-init_code :
      (a : Address) (code : Bytes) (s : State P)
      → IsCoherent api s
      → IsCoherent api (State.init_code a code s).1
  unfolding State.init_code unwrapped ◌>>=◌
  IsCoherent-init_code a code s h = elim (Outcome-cases (account_mut a s).0) [
    | inl (entry, e) ↦
        let t = (fetch_account a s).1 in
        let ht : IsCoherent api t = IsCoherent-fetch_account a s h in
        rw (e, state-account_mut a s)
          (IsCoherent-put_account a (record entry.0 { code = code }, true) t
            (get-AreMaps a entry t.accounts ht.storages (get-account_mut a s e))
            (ht.clean a entry (get-account_mut a s e)) ht)
    | inr (inl (er, e)) ↦ rw e (IsCoherent-account_mut a s h)
    | inr (inr e) ↦ rw e (IsCoherent-account_mut a s h)
  ]

  IsCoherent-fetch_storage :
      (a : Address) (k : H256) (s : State P)
      → IsCoherent api s
      → IsCoherent api (fetch_storage a k s).1
  unfolding fetch_storage pure
  IsCoherent-fetch_storage a k s h =
      >>=-keeps (IsCoherent api) (State.account a) _ s (IsCoherent-account a s h) λ acc _.
        (elim (Bool-cases (contains_key k acc.storage)) [
          | inl known ↦ rw known (IsCoherent-account a s h)
          | inr new ↦ rw new (IsCoherent-fill a k (State.account a s).1 (IsCoherent-account a s h))
        ])

  -- A read keeps the cache coherent.
  pub IsCoherent-storage_at :
      (a : Address) (k : H256) (s : State P)
      → IsCoherent api s
      → IsCoherent api (State.storage_at a k s).1
  unfolding State.storage_at pure
  IsCoherent-storage_at a k s h =
      >>=-keeps (IsCoherent api) (fetch_storage a k) _ s (IsCoherent-fetch_storage a k s h) λ _ _.
        >>=-keeps (IsCoherent api) (State.account a) _ (fetch_storage a k s).1
          (IsCoherent-account a (fetch_storage a k s).1 (IsCoherent-fetch_storage a k s h))
          λ acc _. IsCoherent-account a (fetch_storage a k s).1 (IsCoherent-fetch_storage a k s h)

abbrev pub KeepsCoherent : {P : Type 0} → ⦃api : Provider P⦄ → State P → State P → Type 0
KeepsCoherent ⦃api⦄ s t = IsCoherent api s → IsCoherent api t

module _ {P : Type 0} ⦃api : Provider P⦄ where
  pub balance-KeepsCoherent : (a : Address) → Steps (KeepsCoherent {P = P}) (State.balance a)
  unfolding State.balance pure
  balance-KeepsCoherent a = record {
    at = λ s h.
        >>=-keeps (IsCoherent api) (State.account a) _ s (IsCoherent-account a s h)
          (λ acc _. IsCoherent-account a s h);
  }

  pub storage_at-KeepsCoherent :
      (a : Address) (k : H256) → Steps (KeepsCoherent {P = P}) (State.storage_at a k)
  storage_at-KeepsCoherent a k = record { at = IsCoherent-storage_at a k }

  pub set_storage-KeepsCoherent :
      (a : Address) (k v : H256) → Steps (KeepsCoherent {P = P}) (State.set_storage a k v)
  set_storage-KeepsCoherent a k v = record { at = IsCoherent-set_storage a k v }

  pub init_code-KeepsCoherent :
      (a : Address) (code : Bytes) → Steps (KeepsCoherent {P = P}) (State.init_code a code)
  init_code-KeepsCoherent a code = record { at = IsCoherent-init_code a code }

pub ruleset coherent_rules = (
  balance-KeepsCoherent, storage_at-KeepsCoherent, set_storage-KeepsCoherent,
  init_code-KeepsCoherent,
)
