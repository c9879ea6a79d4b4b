-- ===== src/State/View/Same.antt =====
-- Two states of durian/src/state.rs that show the same: over any two providers and with any two
-- caches, the same value in each slot, the same balances and the same block data. What the virtual
-- machine does to them goes alike.
use durian.Base.{◌≡◌, refl, ◌∙◌, sym, ap, ℕ, Bool, arith, bytes_eq_iff}
use durian.Exec.{Outcome, ok, err, panicked, and_then, ◌>>=◌}
use durian.Exec.Related.{Related}
use durian.HashMap.{contains_key}
use durian.Types.{Address, H256}
use durian.Provider.{Provider}
use durian.State.{State, AccountInfo, storage_at, set_storage, balance}
use durian.State.ReadOnly.{storage_at-SameProvider, balance-SameProvider}
use durian.State.View.{
  entry_at, value_at, entry_at-account, provider-set_storage, entry_at-set_storage,
  account-eq-entry_at,
}
use durian.State.View.Slots.{
  storage_at-eq-value_at, value_at-storage_at, entry_at-fetch_storage, filled, value_at-set_storage,
  result-set_storage,
}

-- The balance that a lookup finds.
abbrev pub shown_balance : Outcome (AccountInfo × Bool) → Outcome ℕ
shown_balance found = and_then found λ entry. ok entry.0.balance

-- What the provider says of the block.
pub record SameBlock {P Q : Type 0} (api : Provider P) (other : Provider Q) (p : P) (q : Q)
    : Type 0 where
  pub block_number : api.block_number p ≡ other.block_number q
  pub block_hash : (n : ℕ) → api.block_hash n p ≡ other.block_hash n q
  pub block_author : api.block_author p ≡ other.block_author q
  pub difficulty : api.difficulty p ≡ other.difficulty q
  pub gas_limit : api.gas_limit p ≡ other.gas_limit q

pub record SameView {P Q : Type 0} (api : Provider P) (other : Provider Q) (s : State P)
    (t : State Q) : Type 0 where
  pub value : (a : Address) (k : H256) → value_at ⦃api = api⦄ a k s ≡ value_at ⦃api = other⦄ a k t
  pub balance :
      (a : Address)
      → shown_balance (entry_at ⦃api = api⦄ a s) ≡ shown_balance (entry_at ⦃api = other⦄ a t)
  pub block : SameBlock api other s.provider t.provider

-- An entry that is found is found in both.
found_alike :
    {A : Type 0} (o o' : Outcome (AccountInfo × Bool)) (x : A)
    → shown_balance o ≡ shown_balance o'
    → and_then o (λ _. ok x) ≡ and_then o' (λ _. ok x)
found_alike o o' x h = through o ∙ (ap (λ r. and_then r (λ _. ok x)) h ∙ sym (through o'))
  where
    through :
        (r : Outcome (AccountInfo × Bool))
        → and_then r (λ _. ok x) ≡ and_then (shown_balance r) (λ _. ok x)
    through (ok e) = refl
    through (err e) = refl
    through panicked = refl

module _ {P Q : Type 0} {api : Provider P} {other : Provider Q} {s : State P} {t : State Q} where
  pub SameView-sym : SameView api other s t → SameView other api t s
  SameView-sym h = record {
    value = λ a k. sym (h.value a k);
    balance = λ a. sym (h.balance a);
    block = record {
      block_number = sym h.block.block_number;
      block_hash = λ n. sym (h.block.block_hash n);
      block_author = sym h.block.block_author;
      difficulty = sym h.block.difficulty;
      gas_limit = sym h.block.gas_limit;
    };
  }

  pub SameView-trans :
      {R : Type 0} {third : Provider R} {u : State R}
      → SameView api other s t
      → SameView other third t u
      → SameView api third s u
  SameView-trans h g = record {
    value = λ a k. h.value a k ∙ g.value a k;
    balance = λ a. h.balance a ∙ g.balance a;
    block = record {
      block_number = h.block.block_number ∙ g.block.block_number;
      block_hash = λ n. h.block.block_hash n ∙ g.block.block_hash n;
      block_author = h.block.block_author ∙ g.block.block_author;
      difficulty = h.block.difficulty ∙ g.block.difficulty;
      gas_limit = h.block.gas_limit ∙ g.block.gas_limit;
    };
  }

module _ {P : Type 0} ⦃api : Provider P⦄ where
  -- States on one blockchain show the same where their slots and balances do.
  SameView-provider :
      (s t : State P)
      → s.provider ≡ t.provider
      → ((a : Address) (k : H256) → value_at a k s ≡ value_at a k t)
      → ((a : Address) → shown_balance (entry_at a s) ≡ shown_balance (entry_at a t))
      → SameView api api s t
  SameView-provider s t same hv hb = record {
    value = hv;
    balance = hb;
    block = record {
      block_number = ap api.block_number same;
      block_hash = λ n. ap (api.block_hash n) same;
      block_author = ap api.block_author same;
      difficulty = ap api.difficulty same;
      gas_limit = ap api.gas_limit same;
    };
  }

  balance_filled :
      (a : Address) (k : H256) (p : P) (o : Outcome (AccountInfo × Bool))
      → shown_balance (and_then o (filled a k p)) ≡ shown_balance o
  unfolding contains_key
  balance_filled a k p (ok e) = ground arith
  balance_filled a k p (err e) = refl
  balance_filled a k p panicked = refl

  balance-storage_at :
      (a b : Address) (k : H256) (s : State P)
      → shown_balance (entry_at b (storage_at a k s).1) ≡ shown_balance (entry_at b s)
  unfolding storage_at ◌>>=◌
  balance-storage_at a b k s = grind (
    arith,
    entry_at-fetch_storage a b k s,
    entry_at-account,
    balance_filled a k s.provider (entry_at a s),
    bytes_eq_iff a b,
  )

  provider-storage_at :
      (a : Address) (k : H256) (s : State P) → (storage_at a k s).1.provider ≡ s.provider
  provider-storage_at a k s = (storage_at-SameProvider a k).at s

  pub SameView-refl : (s : State P) → SameView api api s s
  SameView-refl s = SameView-provider s s refl (λ a k. refl) (λ a. refl)

  -- A read changes nothing that shows.
  pub SameView-storage_at :
      (a : Address) (k : H256) (s : State P) → SameView api api (storage_at a k s).1 s
  SameView-storage_at a k s =
      SameView-provider (storage_at a k s).1 s (provider-storage_at a k s)
        (λ b j. value_at-storage_at a b k j s) (λ b. balance-storage_at a b k s)

  balance-eq-shown : (a : Address) (s : State P) → (balance a s).0 ≡ shown_balance (entry_at a s)
  unfolding balance ◌>>=◌
  balance-eq-shown a s = grind (arith, account-eq-entry_at)

  entry_at-balance : (a b : Address) (s : State P) → entry_at b (balance a s).1 ≡ entry_at b s
  unfolding balance ◌>>=◌
  entry_at-balance a b s = grind (arith, entry_at-account)

  SameView-balance : (a : Address) (s : State P) → SameView api api (balance a s).1 s
  unfolding value_at
  SameView-balance a s =
      let same : (balance a s).1.provider ≡ s.provider = (balance-SameProvider a).at s in
      SameView-provider (balance a s).1 s same (λ b j. rw (entry_at-balance a b s, same) refl)
        (λ b. rw (entry_at-balance a b s) refl)

  balance-set_storage :
      (a b : Address) (k v : H256) (s : State P)
      → shown_balance (entry_at b (set_storage a k v s).1) ≡ shown_balance (entry_at b s)
  balance-set_storage a b k v s = grind (arith, entry_at-set_storage a b k v s, bytes_eq_iff a b)

module _ {P Q : Type 0} (api : Provider P) (other : Provider Q) where
  -- From states that show the same, a read finds the same.
  pub storage_at-Related :
      (a : Address) (k : H256)
      → Related (SameView api other) (storage_at ⦃api = api⦄ a k) (storage_at ⦃api = other⦄ a k)
  storage_at-Related a k = record {
    at = λ s t h. (
      storage_at-eq-value_at ⦃api = api⦄ a k s
          ∙ (h.value a k ∙ sym (storage_at-eq-value_at ⦃api = other⦄ a k t)),
      SameView-trans (SameView-storage_at ⦃api = api⦄ a k s)
          (SameView-trans h (SameView-sym (SameView-storage_at ⦃api = other⦄ a k t))),
    );
  }

  pub balance-Related :
      (a : Address) → Related (SameView api other) (balance ⦃api = api⦄ a) (balance ⦃api = other⦄ a)
  balance-Related a = record {
    at = λ s t h. (
      balance-eq-shown ⦃api = api⦄ a s ∙ (h.balance a ∙ sym (balance-eq-shown ⦃api = other⦄ a t)),
      SameView-trans (SameView-balance ⦃api = api⦄ a s)
          (SameView-trans h (SameView-sym (SameView-balance ⦃api = other⦄ a t))),
    );
  }

  SameView-set_storage :
      (a : Address) (k v : H256) (s : State P) (t : State Q)
      → SameView api other s t
      → SameView api other (set_storage ⦃api = api⦄ a k v s).1 (set_storage ⦃api = other⦄ a k v t).1
  SameView-set_storage a k v s t h = record {
    value = λ b j.
        rw
          (
            value_at-set_storage ⦃api = api⦄ a b k j v s,
            value_at-set_storage ⦃api = other⦄ a b k j v t,
            h.value b j,
            found_alike (entry_at ⦃api = api⦄ a s) (entry_at ⦃api = other⦄ a t) v (h.balance a),
          )
          refl;
    balance = λ b.
        balance-set_storage ⦃api = api⦄ a b k v s
        ∙ (h.balance b ∙ sym (balance-set_storage ⦃api = other⦄ a b k v t));
    block =
        rw (provider-set_storage ⦃api = api⦄ a k v s, provider-set_storage ⦃api = other⦄ a k v t)
          h.block;
  }

  -- From states that show the same, a write ends the same, in states that show the same.
  pub set_storage-Related :
      (a : Address) (k v : H256)
      → Related
          (SameView api other)
          (set_storage ⦃api = api⦄ a k v)
          (set_storage ⦃api = other⦄ a k v)
  set_storage-Related a k v = record {
    at = λ s t h. (
      result-set_storage ⦃api = api⦄ a k v s
          ∙ (found_alike (entry_at ⦃api = api⦄ a s) (entry_at ⦃api = other⦄ a t) tt (h.balance a)
              ∙ sym (result-set_storage ⦃api = other⦄ a k v t)),
      SameView-set_storage a k v s t h,
    );
  }
