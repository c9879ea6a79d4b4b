-- ===== src/State/Sized.antt =====
-- The cache of durian/src/state.rs with lengths: its addresses have 20 bytes, its keys and the values
-- it is to write 32.
use durian.Base.{◌≡◌, Bool, true, some, [], ◌∷◌, arith, bytes_has_eq, length}
use durian.HashMap.{HashMap, get, insert}
use durian.Types.{Address, H256}
use durian.State.{State, AccountInfo, new_state, put_account}

abbrev pub AreSizedSlots : HashMap H256 (H256 × Bool) → Type 0
AreSizedSlots [] = Unit
AreSizedSlots ((k, (v, modified)) ∷ m) =
    (length k ≡ 32) × (modified ≡ true → length v ≡ 32) × AreSizedSlots m

abbrev pub IsSizedEntry : Type 0 → AccountInfo × Bool → Type 0
IsSizedEntry Updates entry = AreSizedSlots entry.0.storage × (entry.1 ≡ true → Updates)

abbrev pub AreSizedAccounts : Type 0 → HashMap Address (AccountInfo × Bool) → Type 0
AreSizedAccounts Updates [] = Unit
AreSizedAccounts Updates ((a, entry) ∷ m) =
    (length a ≡ 20) × IsSizedEntry Updates entry × AreSizedAccounts Updates m

pub record IsSizedCache {P : Type 0} (Updates : Type 0) (IsValid : P → Type 0) (s : State P)
    : Type 0 where
  pub provider : IsValid s.provider
  pub accounts : AreSizedAccounts Updates s.accounts

pub insert-AreSizedSlots :
    (k v : H256) (modified : Bool) (m : HashMap H256 (H256 × Bool))
    → length k ≡ 32
    → (modified ≡ true → length v ≡ 32)
    → AreSizedSlots m
    → AreSizedSlots (insert k (v, modified) m)
unfolding insert
insert-AreSizedSlots k v modified [] hk hv h = (hk, hv, tt)
insert-AreSizedSlots k v modified ((j, (w, n)) ∷ m) hk hv (hj, hw, h) =
    ground (arith, insert-AreSizedSlots k v modified m hk hv h)

pub insert-AreSizedAccounts :
    {Updates : Type 0} (a : Address) (entry : AccountInfo × Bool)
    (m : HashMap Address (AccountInfo × Bool))
    → length a ≡ 20
    → IsSizedEntry Updates entry
    → AreSizedAccounts Updates m
    → AreSizedAccounts Updates (insert a entry m)
unfolding insert
insert-AreSizedAccounts a entry [] ha he h = (ha, he, tt)
insert-AreSizedAccounts a entry ((b, e) ∷ m) ha he (hb, hs, h) =
    ground (arith, insert-AreSizedAccounts a entry m ha he h)

pub get-IsSizedEntry :
    {Updates : Type 0} (a : Address) (entry : AccountInfo × Bool)
    (m : HashMap Address (AccountInfo × Bool))
    → AreSizedAccounts Updates m
    → get a m ≡ some entry
    → IsSizedEntry Updates entry
unfolding get
get-IsSizedEntry a entry [] h e = cc
get-IsSizedEntry a entry ((b, e') ∷ m) (hb, hs, h) e = ground (arith, get-IsSizedEntry a entry m h)

module _ {P : Type 0} {Updates : Type 0} {IsValid : P → Type 0} where
  pub new_state-IsSizedCache : (p : P) → IsValid p → IsSizedCache Updates IsValid (new_state p)
  unfolding new_state
  new_state-IsSizedCache p h = record { provider = h; accounts = tt }

  pub put_account-IsSizedCache :
      (a : Address) (entry : AccountInfo × Bool) (s : State P)
      → length a ≡ 20
      → IsSizedEntry Updates entry
      → IsSizedCache Updates IsValid s
      → IsSizedCache Updates IsValid (put_account a entry s)
  unfolding put_account
  put_account-IsSizedCache a entry s ha he h = record {
    provider = h.provider;
    accounts = insert-AreSizedAccounts a entry s.accounts ha he h.accounts;
  }
