-- ===== src/Env/Ids.antt =====
-- `mod ids` of durian/src/env.rs: the internal numbers of the host functions.
use durian.Base.{ℕ}

abbrev pub storage_write_func : ℕ
storage_write_func = 0

abbrev pub storage_read_func : ℕ
storage_read_func = 10

abbrev pub ret_func : ℕ
ret_func = 20

abbrev pub gas_func : ℕ
gas_func = 30

abbrev pub fetch_input_func : ℕ
fetch_input_func = 40

abbrev pub input_length_func : ℕ
input_length_func = 50

abbrev pub ccall_func : ℕ
ccall_func = 60

abbrev pub scall_func : ℕ
scall_func = 70

abbrev pub dcall_func : ℕ
dcall_func = 80

abbrev pub value_func : ℕ
value_func = 90

abbrev pub create_func : ℕ
create_func = 100

abbrev pub suicide_func : ℕ
suicide_func = 110

abbrev pub block_hash_func : ℕ
block_hash_func = 120

abbrev pub block_number_func : ℕ
block_number_func = 130

abbrev pub block_author_func : ℕ
block_author_func = 140

abbrev pub difficulty_func : ℕ
difficulty_func = 150

abbrev pub gaslimit_func : ℕ
gaslimit_func = 160

abbrev pub timestamp_func : ℕ
timestamp_func = 170

abbrev pub address_func : ℕ
address_func = 180

abbrev pub sender_func : ℕ
sender_func = 190

abbrev pub origin_func : ℕ
origin_func = 200

abbrev pub elog_func : ℕ
elog_func = 210

abbrev pub create2_func : ℕ
create2_func = 220

abbrev pub gasleft_func : ℕ
gasleft_func = 230

abbrev pub panic_func : ℕ
panic_func = 1000

abbrev pub debug_func : ℕ
debug_func = 1010
