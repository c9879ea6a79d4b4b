-- ===== src/Env/Signatures.antt =====
-- `mod signatures` of durian/src/env.rs: the types of the host functions, as wasmi checks them.
use durian.Base.{Option, none, some, List, [], ◌∷◌}

pub data ValueType : Type 0 where
  i32 i64 : ValueType

-- `StaticSignature`
pub record Signature : Type 0 where
  pub params : List ValueType
  pub return_type : Option ValueType

abbrev void : List ValueType → Signature
void params = record { params = params; return_type = none }

abbrev returns : List ValueType → ValueType → Signature
returns params t = record { params = params; return_type = some t }

abbrev pub storage_read_sig : Signature
storage_read_sig = void (i32 ∷ i32 ∷ [])

abbrev pub storage_write_sig : Signature
storage_write_sig = void (i32 ∷ i32 ∷ [])

abbrev pub ret_sig : Signature
ret_sig = void (i32 ∷ i32 ∷ [])

abbrev pub gas_sig : Signature
gas_sig = void (i32 ∷ [])

abbrev pub fetch_input_sig : Signature
fetch_input_sig = void (i32 ∷ [])

abbrev pub input_length_sig : Signature
input_length_sig = returns [] i32

abbrev pub ccall_sig : Signature
ccall_sig = returns (i64 ∷ i32 ∷ i32 ∷ i32 ∷ i32 ∷ i32 ∷ i32 ∷ []) i32

abbrev pub dcall_sig : Signature
dcall_sig = returns (i64 ∷ i32 ∷ i32 ∷ i32 ∷ i32 ∷ i32 ∷ []) i32

abbrev pub scall_sig : Signature
scall_sig = returns (i64 ∷ i32 ∷ i32 ∷ i32 ∷ i32 ∷ i32 ∷ []) i32

abbrev pub panic_sig : Signature
panic_sig = void (i32 ∷ i32 ∷ [])

abbrev pub debug_sig : Signature
debug_sig = void (i32 ∷ i32 ∷ [])

abbrev pub value_sig : Signature
value_sig = void (i32 ∷ [])

abbrev pub create_sig : Signature
create_sig = returns (i32 ∷ i32 ∷ i32 ∷ i32 ∷ []) i32

abbrev pub create2_sig : Signature
create2_sig = returns (i32 ∷ i32 ∷ i32 ∷ i32 ∷ i32 ∷ []) i32

abbrev pub suicide_sig : Signature
suicide_sig = void (i32 ∷ [])

abbrev pub block_hash_sig : Signature
block_hash_sig = void (i64 ∷ i32 ∷ [])

abbrev pub block_number_sig : Signature
block_number_sig = returns [] i64

abbrev pub block_author_sig : Signature
block_author_sig = void (i32 ∷ [])

abbrev pub difficulty_sig : Signature
difficulty_sig = void (i32 ∷ [])

abbrev pub gasleft_sig : Signature
gasleft_sig = returns [] i64

abbrev pub gaslimit_sig : Signature
gaslimit_sig = void (i32 ∷ [])

abbrev pub timestamp_sig : Signature
timestamp_sig = returns [] i64

abbrev pub address_sig : Signature
address_sig = void (i32 ∷ [])

abbrev pub sender_sig : Signature
sender_sig = void (i32 ∷ [])

abbrev pub origin_sig : Signature
origin_sig = void (i32 ∷ [])

abbrev pub elog_sig : Signature
elog_sig = void (i32 ∷ i32 ∷ i32 ∷ i32 ∷ [])
