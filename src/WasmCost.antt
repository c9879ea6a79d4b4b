-- ===== src/WasmCost.antt =====
-- durian/src/wasm_cost.rs: the cost table of the metered interpreter.
use durian.Base.{ℕ, ◌*◌, Bool, false}

pub record WasmCosts : Type 0 where
  pub regular : ℕ
  pub div : ℕ
  pub mul : ℕ
  pub mem : ℕ
  pub static_u256 : ℕ
  pub static_address : ℕ
  pub initial_mem : ℕ
  pub grow_mem : ℕ
  pub memcpy : ℕ
  pub max_stack_height : ℕ
  pub opcodes_mul : ℕ
  pub opcodes_div : ℕ
  pub have_create2 : Bool
  pub have_gasleft : Bool

-- `impl Default for WasmCosts`
abbrev pub default_costs : WasmCosts
default_costs = record {
  regular = 1;
  div = 16;
  mul = 4;
  mem = 2;
  static_u256 = 64;
  static_address = 40;
  initial_mem = 4096;
  grow_mem = 8192;
  memcpy = 1;
  max_stack_height = 64 * 1024;
  opcodes_mul = 3;
  opcodes_div = 8;
  have_create2 = false;
  have_gasleft = false;
}
