-- ===== src/Server/Adaptor.antt =====
-- durian-server/src/provider_adaptor.rs: the `Provider` of the virtual machine whose methods are
-- calls of the client's provider.
use durian.Base.{ℕ, Bool, false, Bytes}
use durian.Error.{Error}
use durian.Exec.{Outcome, ok, err, Exec, and_then}
use durian.Types.{Address, H256, zero_hash}
use durian.Provider.{Provider, StateAccount}
use durian.Wire.{WireCrates, ProviderClient}

module _ {S : Type 0} ⦃client : ProviderClient S⦄ ⦃crates : WireCrates⦄ where
  -- An error of the call counts as `false`.
  unfoldable pub exist : Address → S → Bool
  exist address s = elim (client.exist address s) [ ok known ↦ known | _ ↦ false ]

  unfoldable pub account : Address → S → Outcome StateAccount
  account address s = and_then (client.account address s) λ acc.
      and_then (crates.from_little_endian acc.nonce) λ nonce.
        and_then (crates.from_little_endian acc.balance)
          λ balance. ok (record { nonce = nonce; balance = balance; code = acc.code })

  unfoldable pub create_contract : Address → Bytes → Exec S Unit
  create_contract address code = client.create_contract address code

  unfoldable pub update_account : Address → ℕ → ℕ → Exec S Unit
  update_account address balance nonce =
      client.update_account address (crates.to_little_endian balance)
        (crates.to_little_endian nonce)

  unfoldable pub storage_at : Address → H256 → S → Outcome H256
  storage_at address key s =
      and_then (client.storage_at address key s) λ storage. crates.h256_from_slice storage

  unfoldable pub set_storage : Address → H256 → H256 → Exec S Unit
  set_storage address key value = client.set_storage address key value

  -- `impl Provider for ProviderAdaptor`: the block data are not asked for.
  abbrev pub adaptor : Provider S
  adaptor = record {
    exist = exist;
    account = account;
    update_account = update_account;
    create_contract = create_contract;
    storage_at = storage_at;
    set_storage = set_storage;
    timestamp = λ s. 0;
    block_number = λ s. 0;
    block_hash = λ num s. ok zero_hash;
    block_author = λ s. err Error.not_supported;
    difficulty = λ s. err Error.not_supported;
    gas_limit = λ s. ok 0;
  }
