-- ===== src/Blockchain/Reinstall.antt =====
-- The cache of durian/src/state.rs over examples/blockchain/src/blockchain.rs where code is installed
-- at an address that the blockchain knows already.
use durian.Base.{ℕ, ◌≡◌, refl, ◌∙◌, true, [], ◌∷◌, arith, Bytes, bytes_eq_iff}
use durian.Exec.{ok, ◌>>=◌, unwrapped, on_field}
use durian.HashMap.{get, insert, contains_key}
use durian.Types.{Address}
use durian.State
use durian.State.{State, AccountInfo, new_state}
use durian.Blockchain
use durian.Blockchain.{
  Account, Blockchain, ChainCrates, change_unwrapped, account, provider_account, chain_provider,
}
use durian.Blockchain.Storage.{find_account-change_account}

module _ ⦃crates : ChainCrates⦄ where
  -- The cache after code is installed.
  abbrev installed : Address → Bytes → Account → Blockchain → State Blockchain
  installed a code acc bc = record {
    provider = bc;
    accounts =
        (a, (record { nonce = acc.balance; balance = acc.nonce; code = code; storage = [] }, true))
        ∷ [];
  }

  init_code-known :
      (a : Address) (code : Bytes) (bc : Blockchain) (acc : Account)
      → account a bc ≡ ok acc
      → State.init_code a code (new_state bc) ≡ (ok tt, installed a code acc bc)
  unfolding State.init_code State.account_mut State.fetch_account State.put_account
      State.fetched_account State.new_account new_state unwrapped contains_key get insert
      provider_account ◌>>=◌
  init_code-known a code bc acc e = let self = (bytes_eq_iff a a).1 refl in rw (e, self, self) refl

  update_account-known :
      (a : Address) (balance nonce : ℕ) (bc : Blockchain) (acc : Account)
      → account a bc ≡ ok acc
      → Blockchain.update_account a balance nonce bc
        ≡ (ok tt, (Blockchain.update_account a balance nonce bc).1)
  unfolding Blockchain.update_account change_unwrapped ◌>>=◌
  update_account-known a balance nonce bc acc e = ground (arith, e)

  write-known :
      (a : Address) (info : AccountInfo) (bc : Blockchain) (acc : Account)
      → account a bc ≡ ok acc
      → State.update_account a info bc ≡ Blockchain.update_account a info.balance info.nonce bc
  unfolding State.update_account Blockchain.exist ◌>>=◌
  write-known a info bc acc e = ground (arith, e)

  update_state-installed :
      (a : Address) (code : Bytes) (bc : Blockchain) (acc : Account)
      → account a bc ≡ ok acc
      → State.update_state (installed a code acc bc) ≡ (
        ok tt,
        record (installed a code acc bc) {
          provider = (Blockchain.update_account a acc.nonce acc.balance bc).1;
        },
      )
  unfolding State.update_state State.update_accounts State.update_storage on_field ◌>>=◌
  update_state-installed a code bc acc e =
      let info : AccountInfo = record {
        nonce = acc.balance;
        balance = acc.nonce;
        code = code;
        storage = [];
      } in
      rw (write-known a info bc acc e ∙ update_account-known a acc.nonce acc.balance bc acc e) refl

  account-update_account :
      (a : Address) (balance nonce : ℕ) (bc : Blockchain) (acc : Account)
      → account a bc ≡ ok acc
      → account a (Blockchain.update_account a balance nonce bc).1
        ≡ ok (record acc { nonce = nonce; balance = balance })
  unfolding Blockchain.update_account change_unwrapped account ◌>>=◌
  account-update_account a balance nonce bc acc e =
      grind (arith, find_account-change_account a a, bytes_eq_iff a a)

  -- Code that is installed at an address that the blockchain knows is not written back: the write-back
  -- succeeds, keeps the account's code and storage, and exchanges its nonce and its balance.
  pub account-update_state :
      (a : Address) (code : Bytes) (bc : Blockchain) (acc : Account)
      → account a bc ≡ ok acc
      → let cached = State.init_code a code (new_state bc) in
        (cached.0 ≡ ok tt)
        × ((State.update_state cached.1).0 ≡ ok tt)
        × (account a (State.update_state cached.1).1.provider
            ≡ ok (record acc { nonce = acc.balance; balance = acc.nonce }))
  account-update_state a code bc acc e =
      let cached = init_code-known a code bc acc e in
      let written = update_state-installed a code bc acc e in
      rw (cached, written) (refl, refl, account-update_account a acc.nonce acc.balance bc acc e)
