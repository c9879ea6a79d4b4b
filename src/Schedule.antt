-- ===== src/Schedule.antt =====
-- durian/src/schedule.rs: gas prices and switches. `usize` has 64 bits. The wasm part is optional, and
-- asking for a missing one panics.
use durian.Base.{ℕ, ◌-◌, ◌^◌, Bool, false, Option, none, List, [], ◌∷◌}
use durian.Exec.{Outcome, unwrap_option}
use durian.WasmCost.{WasmCosts}

pub data CleanDustMode : Type 0 where
  off basic_only with_code_and_storage : CleanDustMode

pub record Schedule : Type 0 where
  pub exceptional_failed_code_deposit : Bool
  pub have_delegate_call : Bool
  pub have_create2 : Bool
  pub have_revert : Bool
  pub have_extcodehash : Bool
  pub stack_limit : ℕ
  pub max_depth : ℕ
  pub tier_step_gas : List ℕ
  pub exp_gas : ℕ
  pub exp_byte_gas : ℕ
  pub sha3_gas : ℕ
  pub sha3_word_gas : ℕ
  pub sload_gas : ℕ
  pub sstore_dirty_gas : Option ℕ
  pub sstore_set_gas : ℕ
  pub sstore_reset_gas : ℕ
  pub sstore_refund_gas : ℕ
  pub jumpdest_gas : ℕ
  pub log_gas : ℕ
  pub log_data_gas : ℕ
  pub log_topic_gas : ℕ
  pub create_gas : ℕ
  pub call_gas : ℕ
  pub call_stipend : ℕ
  pub call_value_transfer_gas : ℕ
  pub call_new_account_gas : ℕ
  pub suicide_refund_gas : ℕ
  pub memory_gas : ℕ
  pub quad_coeff_div : ℕ
  pub create_data_gas : ℕ
  pub create_data_limit : ℕ
  pub tx_gas : ℕ
  pub tx_create_gas : ℕ
  pub tx_data_zero_gas : ℕ
  pub tx_data_non_zero_gas : ℕ
  pub copy_gas : ℕ
  pub extcodesize_gas : ℕ
  pub extcodecopy_base_gas : ℕ
  pub balance_gas : ℕ
  pub extcodehash_gas : ℕ
  pub suicide_gas : ℕ
  pub suicide_to_new_account_cost : ℕ
  pub sub_gas_cap_divisor : Option ℕ
  pub no_empty : Bool
  pub kill_empty : Bool
  pub blockhash_gas : ℕ
  pub have_static_call : Bool
  pub have_return_data : Bool
  pub have_bitwise_shifting : Bool
  pub have_chain_id : Bool
  pub have_selfbalance : Bool
  pub kill_dust : CleanDustMode
  pub eip1283 : Bool
  pub eip1706 : Bool
  pub latest_version : ℕ
  pub wasm : Option WasmCosts

-- `Schedule::new`
unfoldable pub new_schedule : Bool → Bool → ℕ → Schedule
new_schedule efcd hdc tcg = record {
  exceptional_failed_code_deposit = efcd;
  have_delegate_call = hdc;
  have_create2 = false;
  have_revert = false;
  have_extcodehash = false;
  stack_limit = 1024;
  max_depth = 1024;
  tier_step_gas = 0 ∷ 2 ∷ 3 ∷ 5 ∷ 8 ∷ 10 ∷ 20 ∷ 0 ∷ [];
  exp_gas = 10;
  exp_byte_gas = 10;
  sha3_gas = 30;
  sha3_word_gas = 6;
  sload_gas = 50;
  sstore_dirty_gas = none;
  sstore_set_gas = 20000;
  sstore_reset_gas = 5000;
  sstore_refund_gas = 15000;
  jumpdest_gas = 1;
  log_gas = 375;
  log_data_gas = 8;
  log_topic_gas = 375;
  create_gas = 32000;
  call_gas = 40;
  call_stipend = 2300;
  call_value_transfer_gas = 9000;
  call_new_account_gas = 25000;
  suicide_refund_gas = 24000;
  memory_gas = 3;
  quad_coeff_div = 512;
  create_data_gas = 200;
  create_data_limit = 2 ^ 64 - 1;
  tx_gas = 21000;
  tx_create_gas = tcg;
  tx_data_zero_gas = 4;
  tx_data_non_zero_gas = 68;
  copy_gas = 3;
  extcodesize_gas = 20;
  extcodecopy_base_gas = 20;
  balance_gas = 20;
  extcodehash_gas = 400;
  suicide_gas = 0;
  suicide_to_new_account_cost = 0;
  sub_gas_cap_divisor = none;
  no_empty = false;
  kill_empty = false;
  blockhash_gas = 20;
  have_static_call = false;
  have_return_data = false;
  have_bitwise_shifting = false;
  have_chain_id = false;
  have_selfbalance = false;
  kill_dust = off;
  eip1283 = false;
  eip1706 = false;
  latest_version = 0;
  wasm = none;
}

unfoldable pub new_frontier : Schedule
unfolding new_schedule
new_frontier = new_schedule false false 21000

-- `impl Default for Schedule`
unfoldable pub default_schedule : Schedule
unfolding new_frontier
default_schedule = new_frontier

-- `Schedule::wasm`: the source panics here on purpose when the part is missing.
unfoldable pub wasm_costs : Schedule → Outcome WasmCosts
wasm_costs s = unwrap_option s.wasm
