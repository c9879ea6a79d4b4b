-- ===== src/Tests/Views.antt =====
-- Runs on states that show the same, and log entries, at concrete inputs.
use durian.Base.{
  ℕ, zero, suc, arith, ◌-◌, inl, ◌+◌, ◌≤◌, ◌≡◌, refl, inr, none, some, [], ◌∷◌, ◌++◌, Bytes,
}
use durian.Exec.{ok, lift, query, modify, pure, raise, ◌>>=◌}
use durian.Types.{LogEntry, Address, H256}
use durian.Crates.{RuntimeArgs, RuntimeValue}
use durian.Blockchain
use durian.Blockchain.{Blockchain, chain_provider}
use durian.State.{State, new_state}
use durian.State.View.{value_at, entry_at}
use durian.State.View.Same.{SameView, SameView-trans}
use durian.Schedule.{default_schedule, wasm_costs}
use durian.Runtime.{
  adjusted_checked, arg_u32, memory_get, charge_gas, overflow_charge, adjusted_overflow_charge,
}
use durian.Runtime.Output.{elog, log_price, read_topics, topic_offset}
use durian.Runtime.Logs.{IsEntry, elog_lem}
use durian.Runtime.View.{on}
use durian.Env.{gas_func}
use durian.Interpreter.{Guest, Instance, run}
use durian.Interpreter.Metered.{Pays, IsStopped, run-IsStopped}
use durian.Execute.{run_contract, schedule}
use durian.Execute.View.{
  read_before, SameView-read_before, run_contract-SameView, run_contract-read_before,
}
use durian.Tests.Fixtures.{
  plain_crates, byte_memory, plain_chain_crates, contract, key_one, chain, machine, reader, writer,
  get_bytes,
}

abbrev reading : Instance Bytes
reading = record { start = Guest.finish (inr none); invoke_call = reader }

abbrev writing : Instance Bytes
writing = record { start = Guest.finish (inr none); invoke_call = writer }

run_contract-read_before_example :
    let r = run_contract reading 1 machine in
    let s = on (read_before ((contract, key_one) ∷ []) machine.state) machine in
    let r' = run_contract reading 1 s in
    (r.0 ≡ r'.0)
    × (r'.1 ≡ on r'.1.state r.1)
    × ((a : Address) (k : H256) → value_at a k r.1.state ≡ value_at a k r'.1.state)
run_contract-read_before_example =
    run_contract-read_before reading 1 machine ((contract, key_one) ∷ [])

-- A blockchain that has made more contracts, and a cache with a slot in it.
abbrev older : Blockchain
older = record chain { counter = 7 }

older-SameView : SameView chain_provider chain_provider machine.state (new_state older)
unfolding value_at entry_at Blockchain.storage_at Blockchain.provider_account Blockchain.account
    Blockchain.block_number Blockchain.block_hash_at Blockchain.address_from_alias new_state
older-SameView = record {
  value = λ a k. refl;
  balance = λ a. refl;
  block = record {
    block_number = refl;
    block_hash = λ n. refl;
    block_author = refl;
    difficulty = refl;
    gas_limit = refl;
  };
}

abbrev warm : State Blockchain
warm = read_before ((contract, key_one) ∷ []) (new_state older)

run_contract-SameView_example :
    let r = run_contract writing 1 machine in
    let r' = run_contract writing 1 (on warm machine) in
    (r.0 ≡ r'.0)
    × (r'.1 ≡ on r'.1.state r.1)
    × SameView chain_provider chain_provider r.1.state r'.1.state
run_contract-SameView_example =
    run_contract-SameView chain_provider chain_provider writing 1 machine warm (
      SameView-trans older-SameView
        (SameView-read_before ((contract, key_one) ∷ []) (new_state older)))

abbrev log_args : RuntimeArgs
log_args = RuntimeValue.i32 0 ∷ RuntimeValue.i32 2 ∷ RuntimeValue.i32 60 ∷ RuntimeValue.i32 5 ∷ []

price-log : adjusted_checked (log_price 2 machine.schedule) machine.schedule ≡ ok (some 3170)
unfolding adjusted_checked log_price schedule default_schedule wasm_costs
price-log = refl

elog-returns : (elog log_args machine).0 ≡ ok tt
unfolding elog arg_u32 lift adjusted_overflow_charge overflow_charge charge_gas adjusted_checked
    log_price schedule default_schedule wasm_costs read_topics topic_offset memory_get query
    get_bytes modify pure raise ◌>>=◌
elog-returns = refl

elog_lem_example :
    (2 ≤ 4)
    × (entry : LogEntry) × IsEntry 0 2 60 5 machine entry
    × ((elog log_args machine).1 ≡ record machine {
      gas_counter = machine.gas_counter + 3170;
      logs = machine.logs ++ entry ∷ [];
    })
elog_lem_example =
    elog_lem log_args 0 2 60 5 3170 machine refl refl refl refl price-log elog-returns

suc-sub : (n : ℕ) → suc n - 1 ≡ n
suc-sub n = omega arith

-- A loop that pays one unit a round.
spin : ℕ → Guest Bytes
spin zero = Guest.finish (inr none)
spin (suc n) = Guest.call gas_func (RuntimeValue.i32 1 ∷ []) λ _. spin n

spin-Pays : (n : ℕ) → Pays n (spin n)
unfolding spin Pays
spin-Pays zero = refl
spin-Pays (suc n) = inl (refl, 1, refl, omega arith, λ v. rw (suc-sub n) (spin-Pays n))

-- The meter stands at 100 of 200000.
run-IsStopped_example : IsStopped (run (spin 199901) machine).0
run-IsStopped_example =
    run-IsStopped (spin 199901) 199901 machine (spin-Pays 199901) (omega arith) (omega arith)
