-- ===== src/State/Commit.antt =====
-- `State::update_state` of durian/src/state.rs: which slots of the blockchain it writes.
use durian.Base.{
  ◌≡◌, refl, Bool, true, false, Option, none, some, [], ◌∷◌, arith, if◌then◌else◌, bytes_eq,
  bytes_eq_iff, bytes_has_eq, Bool-cases, inl, inr,
}
use durian.Exec.{ok, ◌>>=◌, Exec, pure, on_field}
use durian.Exec.Bind.{>>=-eq-ok, >>=-after}
use durian.HashMap.{HashMap, get, IsMap}
use durian.Types.{Address, H256}
use durian.Provider.{Provider}
use durian.Provider.Store.{IsStore, slot}
use durian.State
use durian.State.{State, AccountInfo}

-- A slot after the writes of an account's storage: a modified value, or else what was there.
abbrev pub written : Option (H256 × Bool) → Option H256 → Option H256
written none old = old
written (some (v, true)) old = some v
written (some (v, false)) old = old

abbrev pub written_account : Option (AccountInfo × Bool) → H256 → Option H256 → Option H256
written_account none j old = old
written_account (some entry) j old = written (get j entry.0.storage) old

-- Every storage among the accounts is a map.
abbrev pub AreMaps : HashMap Address (AccountInfo × Bool) → Type 0
AreMaps [] = Unit
AreMaps ((a, entry) ∷ m) = IsMap entry.0.storage × AreMaps m

module _ {P : Type 0} ⦃api : Provider P⦄ {IsValid : P → Type 0} (store : IsStore api IsValid) where
  slot-update_storage :
      (a b : Address) (j : H256) (m : HashMap H256 (H256 × Bool)) (p : P)
      → IsMap m
      → IsValid p
      → (State.update_storage a m p).0 ≡ ok tt
      → IsValid (State.update_storage a m p).1
        × (slot api b j (State.update_storage a m p).1
            ≡ (if bytes_eq a b then written (get j m) (slot api b j p) else slot api b j p))
  unfolding State.update_storage get pure
  slot-update_storage a b j [] p h valid e = (valid, grind arith)
  slot-update_storage a b j ((k, (v, false)) ∷ r) p (fresh, h) valid e =
      let (valid', same) =
        slot-update_storage a b j r p h valid
          (rw (>>=-after (pure tt) (λ _. State.update_storage a r) p refl) at e) in
      rw (>>=-after (pure tt) (λ _. State.update_storage a r) p refl)
        (valid', grind (arith, bytes_eq_iff k j))
  slot-update_storage a b j ((k, (v, true)) ∷ r) p (fresh, h) valid e =
      let (_, set, e') = >>=-eq-ok (api.set_storage a k v) (λ _. State.update_storage a r) p e in
      let p' = (api.set_storage a k v p).1 in
      let (valid', same) =
        slot-update_storage a b j r p' h (store.set_valid a k v p valid set) e' in
      rw (>>=-after (api.set_storage a k v) (λ _. State.update_storage a r) p set)
        (valid', grind (arith, store.set_slot a b k j v p valid set, bytes_eq_iff k j))

  -- The part of the outer loop that writes the account itself.
  abbrev account_step : Bool → Address → AccountInfo → Exec P Unit
  account_step modified a acc = if modified then State.update_account a acc else pure tt

  slot-update_account :
      (a : Address) (acc : AccountInfo) (p : P)
      → IsValid p
      → (State.update_account a acc p).0 ≡ ok tt
      → IsValid (State.update_account a acc p).1
        × ((b : Address) (j : H256)
            → slot api b j (State.update_account a acc p).1 ≡ slot api b j p)
  unfolding State.update_account ◌>>=◌
  slot-update_account a acc p valid e = elim (Bool-cases (api.exist a p)) [
    | inl known ↦ rw known (
      store.update_valid a acc.balance acc.nonce p valid (rw known at e),
      λ b j. store.update_slot a b j acc.balance acc.nonce p valid (rw known at e),
    )
    | inr fresh ↦ rw fresh (
      store.create_valid a acc.code p valid fresh (rw fresh at e),
      λ b j. store.create_slot a b j acc.code p valid fresh (rw fresh at e),
    )
  ]

  slot-account_step :
      (modified : Bool) (a : Address) (acc : AccountInfo) (p : P)
      → IsValid p
      → (account_step modified a acc p).0 ≡ ok tt
      → IsValid (account_step modified a acc p).1
        × ((b : Address) (j : H256)
            → slot api b j (account_step modified a acc p).1 ≡ slot api b j p)
  unfolding pure
  slot-account_step true a acc p valid e = slot-update_account a acc p valid e
  slot-account_step false a acc p valid e = (valid, λ b j. refl)

  slot-update_accounts :
      (b : Address) (j : H256) (m : HashMap Address (AccountInfo × Bool)) (p : P)
      → IsMap m
      → AreMaps m
      → IsValid p
      → (State.update_accounts m p).0 ≡ ok tt
      → IsValid (State.update_accounts m p).1
        × (slot api b j (State.update_accounts m p).1
            ≡ written_account (get b m) j (slot api b j p))
  unfolding State.update_accounts get pure
  slot-update_accounts b j [] p h hs valid e = (valid, refl)
  slot-update_accounts b j ((a, (acc, modified)) ∷ r) p (fresh, h) (hs, hr) valid e =
      let rest : Exec P Unit = State.update_accounts r in
      let (_, e1, f1) =
        >>=-eq-ok (account_step modified a acc)
          (λ _. State.update_storage a acc.storage >>= λ _. rest) p e in
      let p1 = (account_step modified a acc p).1 in
      let (valid1, same1) = slot-account_step modified a acc p valid e1 in
      let (_, e2, f2) = >>=-eq-ok (State.update_storage a acc.storage) (λ _. rest) p1 f1 in
      let p2 = (State.update_storage a acc.storage p1).1 in
      let (valid2, same2) = slot-update_storage a b j acc.storage p1 hs valid1 e2 in
      let (valid3, same3) = slot-update_accounts b j r p2 h hr valid2 f2 in
      rw
        (
          >>=-after (account_step modified a acc)
              (λ _. State.update_storage a acc.storage >>= λ _. rest) p e1,
          >>=-after (State.update_storage a acc.storage) (λ _. rest) p1 e2,
        )
        (valid3, grind (arith, same1 b j, bytes_eq_iff a b))

  -- Over a provider whose storage behaves as one, in a valid state, and with no key twice in a map of
  -- the cache: after a write-back that succeeds, the provider is valid, a slot that was modified in
  -- the cache has its new value, and every other slot has the value it had.
  pub slot-update_state :
      (b : Address) (j : H256) (s : State P)
      → IsMap s.accounts
      → AreMaps s.accounts
      → IsValid s.provider
      → (State.update_state s).0 ≡ ok tt
      → IsValid (State.update_state s).1.provider
        × (slot api b j (State.update_state s).1.provider
            ≡ written_account (get b s.accounts) j (slot api b j s.provider))
  unfolding State.update_state on_field ◌>>=◌
  slot-update_state b j s h hs valid e = slot-update_accounts b j s.accounts s.provider h hs valid e
