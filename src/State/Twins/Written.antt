-- ===== src/State/Twins/Written.antt =====
-- The write-back of durian/src/state.rs through two providers that cannot be told apart: of a cache
-- whose keys and written values have their lengths.
use durian.Base.{Bool, true, false, [], ◌∷◌, ◌≡◌, refl, if◌then◌else◌, length}
use durian.Exec.{pure, on_field, ◌>>=◌}
use durian.Exec.Same.{Same, Same-pure, Same-both, Same-bind, Same-if}
use durian.HashMap.{HashMap}
use durian.Types.{Address, H256}
use durian.Provider.{Provider}
use durian.Provider.Twins.{AreTwins}
use durian.State.{State, AccountInfo, update_storage, update_account, update_accounts, update_state}
use durian.State.Sized.{AreSizedSlots, AreSizedAccounts, IsSizedCache}

-- Nothing is asked of the blockchain.
abbrev pub AnyChain : {P : Type 0} → P → Type 0
AnyChain p = Unit

module _ {P : Type 0} (api twin : Provider P) {IsValid : P → Type 0} {Updates AsksBlock : Type 0}
    (twins : AreTwins api twin IsValid Updates AsksBlock) where
  write_slot-Same :
      (a : Address) (k v : H256) (modified : Bool)
      → length a ≡ 20
      → length k ≡ 32
      → (modified ≡ true → length v ≡ 32)
      → Same AnyChain
          (if modified then api.set_storage a k v else pure tt)
          (if modified then twin.set_storage a k v else pure tt)
  write_slot-Same a k v true ha hk hv = record {
    at = λ p h. (twins.set_storage a k v p ha hk (hv refl), tt);
  }
  write_slot-Same a k v false ha hk hv = Same-pure tt

  update_storage-Same :
      (a : Address) (m : HashMap H256 (H256 × Bool))
      → length a ≡ 20
      → AreSizedSlots m
      → Same AnyChain (update_storage ⦃api = api⦄ a m) (update_storage ⦃api = twin⦄ a m)
  unfolding update_storage
  update_storage-Same a [] ha h = Same-pure tt
  update_storage-Same a ((k, (v, modified)) ∷ r) ha (hk, hv, h) =
      Same-bind _ _ _ _ (write_slot-Same a k v modified ha hk hv)
        (λ _. update_storage-Same a r ha h)

  update_account-Same :
      Updates
      → (a : Address) (acc : AccountInfo) → length a ≡ 20
      → Same AnyChain (update_account ⦃api = api⦄ a acc) (update_account ⦃api = twin⦄ a acc)
  unfolding update_account
  update_account-Same updates a acc ha =
      Same-bind _ _ _ _ (Same-both _ _ (λ p h. twins.exist a p ha)) λ known.
        Same-if known _ _ _ _
          (record { at = λ p h. (twins.update_account updates a acc.balance acc.nonce p ha, tt) })
          (record { at = λ p h. (twins.create_contract a acc.code p ha, tt) })

  write_account-Same :
      (a : Address) (acc : AccountInfo) (modified : Bool)
      → length a ≡ 20
      → (modified ≡ true → Updates)
      → Same AnyChain
          (if modified then update_account ⦃api = api⦄ a acc else pure tt)
          (if modified then update_account ⦃api = twin⦄ a acc else pure tt)
  write_account-Same a acc true ha hu = update_account-Same (hu refl) a acc ha
  write_account-Same a acc false ha hu = Same-pure tt

  update_accounts-Same :
      (m : HashMap Address (AccountInfo × Bool))
      → AreSizedAccounts Updates m
      → Same AnyChain (update_accounts ⦃api = api⦄ m) (update_accounts ⦃api = twin⦄ m)
  unfolding update_accounts
  update_accounts-Same [] h = Same-pure tt
  update_accounts-Same ((a, (acc, modified)) ∷ r) (ha, (hs, hu), h) =
      Same-bind _ _ _ _ (write_account-Same a acc modified ha hu) λ _.
        Same-bind _ _ _ _ (update_storage-Same a acc.storage ha hs) (λ _. update_accounts-Same r h)

  -- The write-back of such a cache ends the same and leaves the same, through one and through the
  -- other.
  pub update_state_agrees :
      (s : State P)
      → IsSizedCache Updates IsValid s
      → update_state ⦃api = api⦄ s ≡ update_state ⦃api = twin⦄ s
  unfolding update_state on_field ◌>>=◌
  update_state_agrees s h =
      rw ((update_accounts-Same s.accounts h.accounts).at s.provider tt).0 refl
