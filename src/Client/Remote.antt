-- ===== src/Client/Remote.antt =====
-- durian-server/src/provider_adaptor.rs over examples/durian-client/src/provider_impl.rs: the
-- blockchain of the client as the virtual machine on the server sees it.
use durian.Base.{
  ◌<◌, ◌^◌, ◌≡◌, refl, true, some, arith, Bytes, length, bytes_has_eq, Option-cases, inl, inr,
}
use durian.Exec.Bind.{Outcome-cases}
use durian.Error.{Error}
use durian.Exec.{Outcome, ok, err, panicked, if_ok, ◌>>=◌}
use durian.HashMap.{get}
use durian.Types.{Address, H256}
use durian.Wire.{WireCrates, IsWireDocumented}
use durian.Server.Adaptor
use durian.Server.Adaptor.{adaptor}
use durian.Client.Provider
use durian.Client.Provider.{refused, relayed, provider_impl}
use durian.Blockchain
use durian.Blockchain.{Blockchain, ChainCrates, Account, chain_provider}
use durian.State
use durian.State.{State, AccountInfo}
use durian.State.View.{value_at, entry_at}

-- The ranges that the types `U256` and `H256` give to what the accounts hold.
pub record IsSized (acc : Account) : Type 0 where
  pub nonce : acc.nonce < 2 ^ 256
  pub balance : acc.balance < 2 ^ 256
  pub storage : (k v : H256) → get k acc.storage ≡ some v → length v ≡ 32

abbrev pub AreSized : Blockchain → Type 0
AreSized bc = (a : Address) (acc : Account) → Blockchain.account a bc ≡ ok acc → IsSized acc

module _ ⦃crates : WireCrates⦄ where
  pub if_ok-refused {ℓ} : {A : Type ℓ} (o : Outcome A) → if_ok (refused o) ≡ if_ok o
  if_ok-refused (ok a) = refl
  if_ok-refused (err e) = refl
  if_ok-refused panicked = refl

module _ ⦃crates : WireCrates⦄ (doc : IsWireDocumented crates) where
  pub exist-remote :
      (a : Address) (bc : Blockchain)
      → length a ≡ 20
      → Adaptor.exist ⦃client = provider_impl⦄ a bc ≡ Blockchain.exist a bc
  unfolding Adaptor.exist Provider.exist
  exist-remote a bc ha = ground (arith, doc.address_exact a ha)

  pub account-remote :
      (a : Address) (bc : Blockchain)
      → length a ≡ 20
      → AreSized bc
      → Adaptor.account ⦃client = provider_impl⦄ a bc ≡ refused (Blockchain.provider_account a bc)
  unfolding Adaptor.account Provider.account Blockchain.provider_account
  account-remote a bc ha sized = elim (Outcome-cases (Blockchain.account a bc)) [
    | inl (acc, e) ↦
        let h : IsSized acc = sized a acc e in
        ground (
          arith,
          doc.address_exact a ha,
          doc.little_endian_inverse acc.nonce h.nonce,
          doc.little_endian_inverse acc.balance h.balance,
        )
    | inr (inl (er, e)) ↦ ground (arith, doc.address_exact a ha)
    | inr (inr e) ↦ ground (arith, doc.address_exact a ha)
  ]

  pub storage_at-remote :
      (a : Address) (k : H256) (bc : Blockchain)
      → length a ≡ 20
      → length k ≡ 32
      → AreSized bc
      → Adaptor.storage_at ⦃client = provider_impl⦄ a k bc ≡ refused (Blockchain.storage_at a k bc)
  unfolding Adaptor.storage_at Provider.storage_at Blockchain.storage_at
  storage_at-remote a k bc ha hk sized = elim (Outcome-cases (Blockchain.account a bc)) [
    | inl (acc, e) ↦ elim (Option-cases (get k acc.storage)) [
      | inl missing ↦ ground (arith, doc.address_exact a ha, doc.h256_exact k hk)
      | inr (v, there) ↦
          let h : IsSized acc = sized a acc e in
          ground (
            arith,
            doc.address_exact a ha,
            doc.h256_exact k hk,
            doc.h256_exact v (h.storage k v there),
          )
    ]
    | inr (inl (er, e)) ↦ ground (arith, doc.address_exact a ha, doc.h256_exact k hk)
    | inr (inr e) ↦ ground (arith, doc.address_exact a ha, doc.h256_exact k hk)
  ]

  pub set_storage-remote :
      (a : Address) (k v : H256) (bc : Blockchain)
      → length a ≡ 20
      → length k ≡ 32
      → length v ≡ 32
      → Adaptor.set_storage ⦃client = provider_impl⦄ a k v bc
        ≡ relayed (Blockchain.set_storage a k v) bc
  unfolding Adaptor.set_storage Provider.set_storage ◌>>=◌
  set_storage-remote a k v bc ha hk hv =
      ground (arith, doc.address_exact a ha, doc.h256_exact k hk, doc.h256_exact v hv)

  pub create_contract-remote :
      (a : Address) (code : Bytes) (bc : Blockchain)
      → length a ≡ 20
      → Adaptor.create_contract ⦃client = provider_impl⦄ a code bc
        ≡ relayed (Blockchain.create_contract a code) bc
  unfolding Adaptor.create_contract Provider.create_contract ◌>>=◌
  create_contract-remote a code bc ha = ground (arith, doc.address_exact a ha)

module _ ⦃chain_crates : ChainCrates⦄ ⦃crates : WireCrates⦄ (doc : IsWireDocumented crates) where
  entry_at-remote :
      (a : Address) (s : State Blockchain)
      → length a ≡ 20
      → AreSized s.provider
      → entry_at ⦃api = adaptor ⦃client = provider_impl⦄⦄ a s ≡ entry_at ⦃api = chain_provider⦄ a s
  unfolding entry_at
  entry_at-remote a s ha sized = ground (
    arith,
    account-remote doc a s.provider ha sized,
    if_ok-refused (Blockchain.provider_account a s.provider),
  )

  -- What a contract reads of a slot through the connection is what it reads on the blockchain itself.
  pub value_at-remote :
      (a : Address) (k : H256) (s : State Blockchain)
      → length a ≡ 20
      → length k ≡ 32
      → AreSized s.provider
      → value_at ⦃api = adaptor ⦃client = provider_impl⦄⦄ a k s
        ≡ value_at ⦃api = chain_provider⦄ a k s
  unfolding value_at
  value_at-remote a k s ha hk sized = rw (entry_at-remote a s ha sized) (
      grind (
        arith,
        storage_at-remote doc a k s.provider ha hk sized,
        if_ok-refused (Blockchain.storage_at a k s.provider),
      ))

  -- The write-back of an account that the client's blockchain knows fails through the connection and
  -- changes nothing, since the client leaves `update_account` unimplemented.
  pub update_account-remote :
      (a : Address) (info : AccountInfo) (bc : Blockchain)
      → length a ≡ 20
      → Blockchain.exist a bc ≡ true
      → State.update_account ⦃api = adaptor ⦃client = provider_impl⦄⦄ a info bc
        ≡ (err (Error.other crates.unimplemented), bc)
  unfolding State.update_account Adaptor.update_account Provider.update_account ◌>>=◌
  update_account-remote a info bc ha known = ground (arith, exist-remote doc a bc ha)
