-- ===== src/State/Coherent.antt =====
-- The agreement between the cache of durian/src/state.rs and the blockchain, and the write-back under
-- it.
pub mod Kept
use durian.Base.{◌≡◌, Bool, false, Option, none, some, [], ◌∷◌, arith, bytes_has_eq}
use durian.Exec.{ok}
use durian.HashMap.{HashMap, get, insert, IsMap}
use durian.Types.{Address, H256}
use durian.Provider.{Provider}
use durian.Provider.Store.{IsStore, slot}
use durian.State
use durian.State.{State, AccountInfo, new_state, fetched_account, value_or_zero}
use durian.State.View.{value_at, entry_at, fetched_value}
use durian.State.Commit.{AreMaps, slot-update_state}

-- Every unmodified slot of an account is as the blockchain has it.
abbrev pub IsClean : {P : Type 0} → Provider P → Address → HashMap H256 (H256 × Bool) → P → Type 0
IsClean api a m p = (k v : H256) → get k m ≡ some (v, false) → slot api a k p ≡ some v

pub record IsCoherent {P : Type 0} (api : Provider P) (s : State P) : Type 0 where
  pub keys : IsMap s.accounts
  pub storages : AreMaps s.accounts
  pub clean :
      (a : Address) (entry : AccountInfo × Bool)
      → get a s.accounts ≡ some entry
      → IsClean api a entry.0.storage s.provider

pub insert-AreMaps :
    (a : Address) (entry : AccountInfo × Bool) (m : HashMap Address (AccountInfo × Bool))
    → IsMap entry.0.storage
    → AreMaps m
    → AreMaps (insert a entry m)
unfolding insert
insert-AreMaps a entry [] h hs = (h, tt)
insert-AreMaps a entry ((b, e) ∷ m) h (hb, hs) = ground (arith, insert-AreMaps a entry m h hs)

pub get-AreMaps :
    (a : Address) (entry : AccountInfo × Bool) (m : HashMap Address (AccountInfo × Bool))
    → AreMaps m
    → get a m ≡ some entry
    → IsMap entry.0.storage
unfolding get
get-AreMaps a entry [] hs e = cc
get-AreMaps a entry ((b, e') ∷ m) (hb, hs) e = ground (arith, get-AreMaps a entry m hs)

module _ {P : Type 0} ⦃api : Provider P⦄ {IsValid : P → Type 0} (store : IsStore api IsValid) where
  or_zero : Option H256 → H256
  or_zero none = value_or_zero none
  or_zero (some v) = v

  fetched_value-slot :
      (a : Address) (k : H256) (p : P)
      → IsValid p
      → fetched_value a k p ≡ ok (or_zero (slot api a k p))
  unfolding or_zero
  fetched_value-slot a k p valid = ground (arith, store.storage_total a k p valid)

  -- Over a provider whose storage behaves as one, in a valid state: a cache that is coherent and is
  -- written back without an error leaves a blockchain on which a new cache shows every slot as the
  -- old one did.
  pub value_at-update_state :
      (b : Address) (j : H256) (s : State P)
      → IsCoherent api s
      → IsValid s.provider
      → (State.update_state s).0 ≡ ok tt
      → value_at b j (new_state (State.update_state s).1.provider) ≡ value_at b j s
  unfolding value_at entry_at new_state fetched_account State.new_account get
  value_at-update_state b j s h valid e =
      let (valid', same) = slot-update_state store b j s h.keys h.storages valid e in
      let p' = (State.update_state s).1.provider in
      grind (
        arith,
        fetched_value-slot b j p' valid',
        fetched_value-slot b j s.provider valid,
        store.account_total b p' valid',
        store.account_total b s.provider valid,
        h.clean b,
      )
