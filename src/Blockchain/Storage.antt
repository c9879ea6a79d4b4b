-- ===== src/Blockchain/Storage.antt =====
-- The storage of accounts in examples/blockchain/src/blockchain.rs.
use durian.Base.{
  ◌≡◌, true, Option, none, some, [], ◌∷◌, arith, if◌then◌else◌, ◌&&◌, Bytes, bytes_eq, bytes_eq_iff,
}
use durian.Exec.{ok, ◌>>=◌}
use durian.HashMap.{HashMap, get-insert}
use durian.Types.{Address, H256}
use durian.Blockchain.{
  Account, Blockchain, find_account, change_account, account, change_unwrapped, storage_at,
  set_storage, exist,
}

abbrev pub on_account : (Account → Account) → Option (Bytes × Account) → Option (Bytes × Account)
on_account f none = none
on_account f (some found) = some (found.0, f found.1)

pub find_account-change_account :
    (a b : Address) (f : Account → Account) (m : HashMap Bytes Account)
    → ((acc : Account) → (f acc).address ≡ acc.address)
    → find_account b (change_account a f m)
      ≡ (if bytes_eq a b then on_account f (find_account b m) else find_account b m)
unfolding find_account change_account
find_account-change_account a b f [] h = ground arith
find_account-change_account a b f ((alias, acc) ∷ r) h = ground (
  arith,
  h acc,
  bytes_eq_iff acc.address a,
  bytes_eq_iff acc.address b,
  bytes_eq_iff a b,
  find_account-change_account a b f r h,
)

-- Where the address is known, a write returns, and afterwards every read of every known or unknown
-- address gives what it gave before, but for the slot that was written.
pub storage_at-set_storage :
    (a b : Address) (k j v : H256) (bc : Blockchain)
    → exist a bc ≡ true
    → ((set_storage a k v bc).0 ≡ ok tt)
      × (storage_at b j (set_storage a k v bc).1
          ≡ (if bytes_eq a b && bytes_eq k j then ok v else storage_at b j bc))
unfolding set_storage change_unwrapped account storage_at exist ◌>>=◌
storage_at-set_storage a b k j v bc h =
    (ground arith, grind (arith, find_account-change_account a b, get-insert, bytes_eq_iff a b))
