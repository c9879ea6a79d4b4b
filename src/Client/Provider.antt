-- ===== src/Client/Provider.antt =====
-- examples/durian-client/src/provider_impl.rs: the blockchain's side of the calls that the virtual
-- machine makes. The mutex around the blockchain is held for one call each. A method that the
-- source does not implement is capnp's default, which fails.
use durian.Base.{Bool, Bytes}
use durian.Error.{Error}
use durian.Exec.{Outcome, ok, err, panicked, Exec, and_then, lift, raise, ◌>>=◌}
use durian.Provider.{StateAccount}
use durian.Wire.{WireCrates, AccountMessage, ProviderClient}
use durian.Blockchain
use durian.Blockchain.{Blockchain}

module _ ⦃crates : WireCrates⦄ where
  -- `Err(e) => Promise::err(Error::failed(format!("{}", e)))`
  abbrev pub refused {ℓ} : {A : Type ℓ} → Outcome A → Outcome A
  refused (ok a) = ok a
  refused (err e) = err (Error.other (crates.show_error e))
  refused panicked = panicked

  unfoldable pub exist : Outcome Bytes → Blockchain → Outcome Bool
  exist get_address bc =
      and_then (and_then get_address crates.address_from_slice)
        λ address. ok (Blockchain.exist address bc)

  abbrev account_message : StateAccount → AccountMessage
  account_message account = record {
    nonce = crates.to_little_endian account.nonce;
    balance = crates.to_little_endian account.balance;
    code = account.code;
  }

  unfoldable pub account : Outcome Bytes → Blockchain → Outcome AccountMessage
  account get_address bc = and_then (and_then get_address crates.address_from_slice) λ address.
      and_then (refused (Blockchain.provider_account address bc)) λ acc. ok (account_message acc)

  -- `match self.bc.lock().unwrap().method(..)` for a method that writes.
  unfoldable pub relayed : Exec Blockchain Unit → Exec Blockchain Unit
  relayed method bc = let (r, bc') = method bc in (refused r, bc')

  unfoldable pub create_contract : Outcome Bytes → Outcome Bytes → Exec Blockchain Unit
  create_contract get_address get_code = do
    address ← lift (and_then get_address crates.address_from_slice)
    code ← lift get_code
    relayed (Blockchain.create_contract address code)

  unfoldable pub storage_at : Outcome Bytes → Outcome Bytes → Blockchain → Outcome Bytes
  storage_at get_address get_key bc =
      and_then (and_then get_address crates.address_from_slice) λ address.
        and_then (and_then get_key crates.h256_from_slice)
          λ key. refused (Blockchain.storage_at address key bc)

  unfoldable pub set_storage : Outcome Bytes → Outcome Bytes → Outcome Bytes → Exec Blockchain Unit
  set_storage get_address get_key get_value = do
    address ← lift (and_then get_address crates.address_from_slice)
    key ← lift (and_then get_key crates.h256_from_slice)
    value ← lift (and_then get_value crates.h256_from_slice)
    relayed (Blockchain.set_storage address key value)

  -- `update_account` is left to the default of `provider::Server`.
  unfoldable pub update_account :
      Outcome Bytes → Outcome Bytes → Outcome Bytes → Exec Blockchain Unit
  update_account get_address get_balance get_nonce = raise (Error.other crates.unimplemented)

  -- `impl provider::Server for ProviderImpl`, over a connection that delivers what was set.
  abbrev pub provider_impl : ProviderClient Blockchain
  provider_impl = record {
    exist = λ address. exist (ok address);
    account = λ address. account (ok address);
    update_account = λ address balance nonce. update_account (ok address) (ok balance) (ok nonce);
    create_contract = λ address code. create_contract (ok address) (ok code);
    storage_at = λ address key. storage_at (ok address) (ok key);
    set_storage = λ address key value. set_storage (ok address) (ok key) (ok value);
  }
