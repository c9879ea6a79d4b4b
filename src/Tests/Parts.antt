-- ===== src/Tests/Parts.antt =====
-- The parts of the virtual machine at concrete inputs.
use durian.Base.{
  ℕ, ◌≤◌, ◌<◌, ◌+◌, ◌≡◌, ◌≢◌, ◌⊎◌, ◌∷◌, [], ◌++◌, refl, arith, true, Bytes, codes, ◌&&◌, bytes_eq,
  if◌then◌else◌, inl, inr, none, some, replicate,
}
use durian.Error.{Error, WasmiError, TrapKind}
use durian.Exec.{ok, err, ◌>>=◌, on_field, unwrapped}
use durian.HashMap.{get, insert, contains_key}
use durian.Types.{Address, H256}
use durian.Crates.{RuntimeArgs, RuntimeValue}
use durian.Schedule.{default_schedule}
use durian.State
use durian.State.{State}
use durian.State.View.{value_at, entry_at}
use durian.State.View.Slots.{storage_at-eq-value_at, value_at-storage_at, value_at-set_storage_ok}
use durian.Env
use durian.Env.{
  FuncRef, ImportResolver, MemoryDescriptor, resolve_func, resolve_memory, dcall_func, scall_func,
  create2_func,
}
use durian.Env.Imports.{resolve_memory_bounds}
use durian.PanicPayload.{decode}
use durian.PanicPayload.RoundTrip.{encode, decode-encode}
use durian.Utf8.{is_utf8, from_utf8_lossy, from_utf8_lossy-IsUtf8}
use durian.Decimal.{decimal, value_from, decimal-value}
use durian.Transaction.{make_create_embedded_code, make_create}
use durian.Transaction.Embedded.{make_create_embedded_code-make_create}
use durian.Runtime.{
  charge_gas, charge, adjusted, adjusted_charge, on_state, arg_u32, memory_set, h256_at,
}
use durian.Runtime.Storage.{write_price, storage_read, storage_write, add_sstore_refund}
use durian.Runtime.Gas.{charge_each, charge_each-exact}
use durian.Runtime.Slots.{storage_read_lem, storage_write_lem}
use durian.Blockchain.Reinstall.{account-update_state}
use durian.Runtime.Handled.{look_up, host_functions, invoke_index-resolve_func}
use durian.Runtime.Dispatch.{invoke_index, without_value}
use durian.Runtime.Output.{elog}
use durian.Interpreter.{InvokeResult}
use durian.Execute.{check_result, schedule}
use durian.Execute.Traps.{check_result_lem}
use durian.Blockchain
use durian.Blockchain.{Blockchain, chain_provider, find_account}
use durian.Blockchain.Storage.{storage_at-set_storage}
use durian.Tests.Fixtures.{
  plain_crates, plain_crates-IsDocumented, byte_memory, plain_chain_crates, chain, hash_two,
  contract, machine, get_bytes, set_bytes, key_one, memory,
}

abbrev hash_three : H256
hash_three = replicate 32 3

abbrev cache : State Blockchain
cache = machine.state

abbrev two_pointers : ℕ → ℕ → RuntimeArgs
two_pointers a b = RuntimeValue.i32 a ∷ RuntimeValue.i32 b ∷ []

slot_value_at : value_at contract key_one cache ≡ ok hash_two
unfolding value_at entry_at get Blockchain.provider_account Blockchain.account find_account
    Blockchain.storage_at State.fetched_account State.new_account
slot_value_at = refl

storage_at-eq-value_at_example :
    (State.storage_at contract key_one cache).0 ≡ value_at contract key_one cache
storage_at-eq-value_at_example = storage_at-eq-value_at contract key_one cache

value_at-storage_at_example :
    value_at contract key_one (State.storage_at contract hash_two cache).1
    ≡ value_at contract key_one cache
value_at-storage_at_example = value_at-storage_at contract contract hash_two key_one cache

value_at-set_storage_ok_example :
    value_at contract key_one (State.set_storage contract key_one hash_three cache).1 ≡ (
      if bytes_eq contract contract && bytes_eq key_one key_one
      then ok hash_three
      else value_at contract key_one cache)
unfolding State.set_storage State.account_mut State.fetch_account contains_key get State.put_account
    unwrapped ◌>>=◌ insert Blockchain.provider_account Blockchain.account find_account
    State.fetched_account State.new_account
value_at-set_storage_ok_example =
    value_at-set_storage_ok contract contract key_one key_one hash_three cache refl

charge_each-exact_example :
    ((machine.gas_counter + 150300 ≤ machine.gas_limit)
      × (charge_each (50000 ∷ 100000 ∷ 300 ∷ []) machine
          ≡ (ok tt, record machine { gas_counter = machine.gas_counter + 150300 })))
    ⊎ ((machine.gas_limit < machine.gas_counter + 150300)
        × (counter : ℕ) × (machine.gas_counter ≤ counter)
        × (counter ≤ machine.gas_limit)
        × (charge_each (50000 ∷ 100000 ∷ 300 ∷ []) machine
            ≡ (err Error.gas_limit, record machine { gas_counter = counter })))
charge_each-exact_example =
    charge_each-exact (50000 ∷ 100000 ∷ 300 ∷ []) machine (omega arith) (omega arith)

storage_read_lem_example :
    (set_bytes memory 64 hash_two ≡ inr (storage_read (two_pointers 0 64) machine).1.memory)
    × ((b : Address) (j : H256)
        → value_at b j (storage_read (two_pointers 0 64) machine).1.state ≡ value_at b j cache)
unfolding storage_read arg_u32 h256_at on_state on_field memory_set adjusted_charge charge
    charge_gas adjusted ◌>>=◌ get_bytes set_bytes State.storage_at State.fetch_storage
    State.cache_storage State.account State.account_mut State.fetch_account State.put_account
    contains_key get insert Blockchain.provider_account Blockchain.account find_account
    Blockchain.storage_at State.fetched_account State.new_account schedule default_schedule
storage_read_lem_example =
    storage_read_lem (two_pointers 0 64) 0 64 key_one hash_two machine refl refl refl slot_value_at
      refl

storage_write_lem_example :
    ((b : Address) (j : H256)
      → value_at b j (storage_write (two_pointers 0 32) machine).1.state
        ≡ (if bytes_eq contract b && bytes_eq key_one j then ok hash_three else value_at b j cache))
    × ((storage_write (two_pointers 0 32) machine).1.memory ≡ memory)
    × ((storage_write (two_pointers 0 32) machine).1.gas_counter ≡ 13433)
unfolding storage_write arg_u32 h256_at on_state on_field adjusted_charge charge charge_gas adjusted
    ◌>>=◌ get_bytes unwrapped write_price add_sstore_refund State.storage_at State.fetch_storage
    State.cache_storage State.account State.account_mut State.fetch_account State.put_account
    contains_key get insert State.set_storage Blockchain.provider_account Blockchain.account
    find_account Blockchain.storage_at State.fetched_account State.new_account schedule
    default_schedule
storage_write_lem_example =
    storage_write_lem (two_pointers 0 32) 0 32 key_one hash_three hash_two 13333 machine refl refl
      refl refl slot_value_at refl refl

abbrev out_of_gas : InvokeResult
out_of_gas = inl (WasmiError.trap (TrapKind.host Error.gas_limit))

check_result_lem_example :
    (check_result (λ k. codes "trap") out_of_gas ≡ ok tt)
    ⊎ ((e : Error) × (◌≡◌ {A = InvokeResult} out_of_gas (inl (WasmiError.trap (TrapKind.host e))))
        × (e ≢ Error.return)
        × (e ≢ Error.suicide)
        × (check_result (λ k. codes "trap") out_of_gas
            ≡ err (Error.wasm (codes "Wasm Trap error: " ++ codes "trap"))))
check_result_lem_example = check_result_lem (λ k. codes "trap") out_of_gas

abbrev resolver : ImportResolver Bytes
resolver = record { max_memory = 16; memory = none; have_create2 = true; have_gasleft = true }

abbrev elog_ref : FuncRef
elog_ref = record { signature = Env.elog_sig; index = Env.elog_func }

invoke_index-resolve_func_example :
    look_up "elog" (host_functions Blockchain Bytes (two_pointers 0 64))
    ≡ some (invoke_index elog_ref.index (two_pointers 0 64))
unfolding resolve_func Env.find_import Env.import_table
invoke_index-resolve_func_example =
    invoke_index-resolve_func Blockchain Bytes resolver "elog" (two_pointers 0 64) {f = elog_ref}
      refl

-- It is the log entry's function.
elog_called :
    look_up "elog" (host_functions Blockchain Bytes (two_pointers 0 64))
    ≡ some (without_value (elog (two_pointers 0 64)))
elog_called = refl

abbrev two_pages : MemoryDescriptor
two_pages = record { initial = 2; maximum = some 16 }

resolve_memory_bounds_example :
    let r' = record resolver { memory = some [] } in
    (two_pages.initial ≤ resolver.max_memory)
    × (top : ℕ) × (two_pages.maximum ≡ some top)
    × (top ≤ resolver.max_memory)
    × (r'.memory ≡ some [])
    × (r'.max_memory ≡ resolver.max_memory)
unfolding resolve_memory
resolve_memory_bounds_example =
    resolve_memory_bounds resolver "memory" two_pages {m = []}
      {r' = record resolver { memory = some [] }} (omega arith) refl

-- "héllo", and no file.
abbrev message : Bytes
message = 0x68 ∷ 0xc3 ∷ 0xa9 ∷ 0x6c ∷ 0x6c ∷ 0x6f ∷ []

message-IsUtf8 : is_utf8 message ≡ true
unfolding is_utf8
message-IsUtf8 = refl

decode-encode_example :
    decode (encode (some message) none 300 7)
    ≡ record { msg = some message; file = none; line = some 300; col = some 7 }
decode-encode_example =
    decode-encode plain_crates-IsDocumented (some message) none 300 7
      (omega arith, omega arith, message-IsUtf8) tt (omega arith) (omega arith)

-- A byte that starts nothing is replaced by U+FFFD.
replaced : from_utf8_lossy (0x61 ∷ 0xff ∷ 0x62 ∷ []) ≡ 0x61 ∷ 0xef ∷ 0xbf ∷ 0xbd ∷ 0x62 ∷ []
unfolding from_utf8_lossy
replaced = refl

from_utf8_lossy-IsUtf8_example : from_utf8_lossy message ≡ message
from_utf8_lossy-IsUtf8_example = from_utf8_lossy-IsUtf8 message message-IsUtf8

decimal-value_example : value_from 0 (decimal 4294967295) ≡ 4294967295
decimal-value_example = decimal-value 4294967295 (omega arith)

make_create_embedded_code-make_create_example :
    make_create_embedded_code (λ b. 2) contract 0 100 1 ((5 ∷ 6 ∷ []) ++ (7 ∷ [])) key_one
    ≡ ok (make_create contract 0 100 1 (5 ∷ 6 ∷ []) (7 ∷ []) key_one)
make_create_embedded_code-make_create_example =
    make_create_embedded_code-make_create (λ b. 2) contract 0 100 1 (5 ∷ 6 ∷ []) (7 ∷ []) key_one
      refl

-- The contract of the chain has the nonce 3 and the balance 50.
account-update_state_example :
    let cached = State.init_code contract (1 ∷ []) (State.new_state chain) in
    (cached.0 ≡ ok tt)
    × ((State.update_state cached.1).0 ≡ ok tt)
    × (Blockchain.account contract (State.update_state cached.1).1.provider
        ≡ ok (record {
          address = contract;
          nonce = 50;
          balance = 3;
          code = 0 ∷ 97 ∷ [];
          storage = (key_one, hash_two) ∷ [];
        }))
unfolding Blockchain.account Blockchain.find_account
account-update_state_example =
    account-update_state contract (1 ∷ []) chain
      (record {
        address = contract;
        nonce = 3;
        balance = 50;
        code = 0 ∷ 97 ∷ [];
        storage = (key_one, hash_two) ∷ [];
      })
      refl

storage_at-set_storage_example :
    ((Blockchain.set_storage contract key_one hash_three chain).0 ≡ ok tt)
    × (Blockchain.storage_at contract key_one
          (Blockchain.set_storage contract key_one hash_three chain).1
        ≡ (if bytes_eq contract contract && bytes_eq key_one key_one
            then ok hash_three
            else Blockchain.storage_at contract key_one chain))
unfolding Blockchain.exist Blockchain.account find_account
storage_at-set_storage_example =
    storage_at-set_storage contract contract key_one key_one hash_three chain refl
