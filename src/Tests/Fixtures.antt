-- ===== src/Tests/Fixtures.antt =====
-- Concrete parameters: a memory that is a list of bytes, a blockchain with one contract, and an
-- interpreter for some programs; the arithmetic of the crates is that of the child module.
mod Numbers
use durian.Base.{
  ℕ, ◌+◌, ◌-◌, ◌/◌, ◌^◌, ◌⊎◌, inl, inr, Option, none, some, [], ◌∷◌, ◌++◌, arith, leb,
  if◌then◌else◌, Bytes, codes, length, take, drop, replicate, get_elem?, zero, suc, length-take,
  length-drop,
}
use durian.Error.{TrapKind, WasmiError}
use durian.Exec.{ok}
use durian.Types.{Address, H256, zero_hash, ActionType, ActionParams}
use durian.Crates.{Wasmi, FillsBuffers, RuntimeValue, RuntimeArgs}
use durian.Parser.{WasmTools}
use durian.Interpreter.{Guest, Interpreter}
use durian.Runtime.{Runtime}
use durian.Execute.{schedule}
use durian.Transaction.{Transaction, Action}
use durian.Blockchain
use durian.Blockchain.Blocks.{IsChain, new_blockchain-IsChain}
use durian.Blockchain.{Blockchain, ChainCrates}
unfoldable pub use durian.Tests.Fixtures.Numbers.{
  big_endian, number_from, u32_from, crates_mul, crates_div, plain_crates,
}
pub use durian.Tests.Fixtures.Numbers.{plain_crates-IsDocumented}

-- A memory is its bytes; an access past the end is an error.
unfoldable pub get_bytes : Bytes → ℕ → ℕ → WasmiError ⊎ Bytes
get_bytes m offset len =
    if leb (offset + len) (length m)
    then inr (take len (drop offset m))
    else inl (WasmiError.memory (codes "out of bounds"))

unfoldable pub set_bytes : Bytes → ℕ → Bytes → WasmiError ⊎ Bytes
set_bytes m offset bs =
    if leb (offset + length bs) (length m)
    then inr (take offset m ++ (bs ++ drop (offset + length bs) m))
    else inl (WasmiError.memory (codes "out of bounds"))

abbrev as_u32 : Option RuntimeValue → TrapKind ⊎ ℕ
as_u32 (some (RuntimeValue.i32 n)) = inr n
as_u32 _ = inl TrapKind.unexpected_signature

abbrev as_u64 : Option RuntimeValue → TrapKind ⊎ ℕ
as_u64 (some (RuntimeValue.i64 n)) = inr n
as_u64 _ = inl TrapKind.unexpected_signature

instance abbrev pub byte_memory : Wasmi Bytes
byte_memory = record {
  nth_u32 = λ args i. as_u32 (get_elem? args i);
  nth_u64 = λ args i. as_u64 (get_elem? args i);
  value_from_u64 = RuntimeValue.i64;
  get_into = get_bytes;
  get = get_bytes;
  set = set_bytes;
  current_size = λ m. length m / 65536;
  alloc = λ initial top. inr [];
}

pub byte_memory-FillsBuffers : FillsBuffers byte_memory
unfolding get_bytes
byte_memory-FillsBuffers = record {
  get_into_length =
      λ m ptr len bytes e. grind (arith, length-take len (drop ptr m), length-drop ptr m);
}

instance abbrev pub plain_chain_crates : ChainCrates
plain_chain_crates = record {
  keccak256 = λ b. take 32 (b ++ replicate 32 0);
  serialize = λ b. b.num ∷ b.prev;
  to_little_endian = λ x. replicate 32 0;
  u256_add = λ a b. ok (a + b);
}

abbrev pub contract : Address
contract = replicate 20 7

abbrev pub key_one : H256
key_one = replicate 32 1

abbrev pub hash_two : H256
hash_two = replicate 32 2

-- A chain with one contract, whose slot `key_one` holds `hash_two`.
abbrev pub chain : Blockchain
chain = record {
  blocks =
      record { num = 0; prev = zero_hash; time = 5 }
      ∷ record { num = 1; prev = zero_hash; time = 9 }
      ∷ [];
  accounts =
      (
        codes "contract_1",
        record {
          address = contract;
          nonce = 3;
          balance = 50;
          code = 0 ∷ 97 ∷ [];
          storage = (key_one, hash_two) ∷ [];
        },
      )
      ∷ [];
  counter = 1;
  transactions = [];
}

abbrev pub call_params : ActionParams
call_params = record {
  code_address = contract;
  code_hash = none;
  address = contract;
  sender = replicate 20 8;
  origin = replicate 20 8;
  gas = 90000;
  gas_price = 0;
  value = 0;
  code = 0 ∷ 97 ∷ [];
  code_version = 0;
  args = 1 ∷ 2 ∷ 3 ∷ [];
  action_type = ActionType.call;
}

-- A key at offset 0, a value at offset 32, and room for a result at offset 64.
abbrev pub memory : Bytes
memory = key_one ++ (replicate 32 3 ++ replicate 64 0)

abbrev pub machine : Runtime Blockchain Bytes
machine = record {
  schedule = schedule;
  gas_counter = 100;
  gas_limit = 200000;
  params = call_params;
  memory = memory;
  result = [];
  state = record { provider = chain; accounts = [] };
  logs = [];
}

-- Programs: one reads the slot at offset 0 to offset 64 and returns it, one writes the slot first and
-- runs out of gas, one writes it and returns nothing, one hits an unreachable instruction.
abbrev two_args : ℕ → ℕ → RuntimeArgs
two_args a b = RuntimeValue.i32 a ∷ RuntimeValue.i32 b ∷ []

abbrev pub reader : Guest Bytes
reader =
    Guest.touch (λ m. memory)
      λ m.
        Guest.call 10 (two_args 0 64)
          λ _. Guest.call 20 (two_args 64 32) λ _. Guest.finish (inr none)

abbrev pub spender : Guest Bytes
spender =
    Guest.touch (λ m. memory)
      λ m.
        Guest.call 0 (two_args 0 32)
          λ _. Guest.call 30 (RuntimeValue.i32 (2 ^ 32 - 1) ∷ []) λ _. Guest.finish (inr none)

abbrev pub silent : Guest Bytes
silent = Guest.touch (λ m. memory) λ m. Guest.call 0 (two_args 0 32) λ _. Guest.finish (inr none)

-- One that writes the slot and returns the value.
abbrev pub writer : Guest Bytes
writer =
    Guest.touch (λ m. memory)
      λ m.
        Guest.call 0 (two_args 0 32)
          λ _. Guest.call 20 (two_args 32 32) λ _. Guest.finish (inr none)

abbrev pub program : Bytes → Guest Bytes
program [] = Guest.finish (inl (WasmiError.trap TrapKind.unreachable))
program (zero ∷ r) = reader
program (suc zero ∷ r) = spender
program (suc (suc n) ∷ r) = silent

instance abbrev pub plain_tools : WasmTools Bytes
plain_tools = record {
  deserialize = inr;
  memory_section = λ m. none;
  inject_gas_counter = λ m rules. some m;
  inject_limiter = λ m limit. some m;
}

instance abbrev pub plain_interpreter : Interpreter Bytes Bytes Bytes
plain_interpreter = record {
  from_parity_wasm_module = inr;
  new_instance = λ m r. inr (
    record { start = Guest.finish (inr none); invoke_call = program m },
    record r { memory = some memory },
  );
}

-- A chain whose contract has the given code.
abbrev pub chain_with : Bytes → Blockchain
chain_with code = record chain {
  accounts =
      (
        codes "contract_1",
        record {
          address = contract;
          nonce = 3;
          balance = 50;
          code = code;
          storage = (key_one, hash_two) ∷ [];
        },
      )
      ∷ [];
}

abbrev pub call_contract : Transaction
call_contract = record {
  sender = replicate 20 8;
  value = 0;
  gas = 90000;
  gas_price = 0;
  action = Action.call contract;
  args = 1 ∷ 2 ∷ 3 ∷ [];
}

-- A new blockchain, with its time and addresses.
abbrev pub genesis : Blockchain
genesis =
    Blockchain.new_blockchain 5 (replicate 20 1) (replicate 20 2) (replicate 20 3) (replicate 20 4)
      (replicate 20 5)

pub genesis-IsChain : IsChain genesis
genesis-IsChain =
    new_blockchain-IsChain 5 (replicate 20 1) (replicate 20 2) (replicate 20 3) (replicate 20 4)
      (replicate 20 5)
