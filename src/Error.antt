-- ===== src/Error.antt =====
-- durian/src/error.rs: the error type and its conversions from the interpreter's errors. The types
-- `TrapKind` and `WasmiError` have the constructors of wasmi that `error.rs` matches; a host trap
-- carries a boxed `Error`, the only type that this crate gives a `HostError` implementation.
-- How wasmi prints a trap is an argument. A Rust `String` is its UTF-8 bytes.
pub mod Conversions
use durian.Base.{◌++◌, Bytes, codes}

pub data Error : Type 0 where
  not_supported memory_access_violation : Error
  wasm : Bytes → Error
  storage_read_error storage_update_error suicide return suicide_abort : Error
  invalid_gas_state balance_query_error allocation_failed gas_limit unknown bad_utf8 log : Error
  other : Bytes → Error
  unreachable invalid_virtual_call division_by_zero invalid_conversion_to_int stack_overflow : Error
  panic : Bytes → Error
  invalid_address : Bytes → Error
  invalid_storage_key : Bytes → Error

pub data TrapKind : Type 0 where
  unreachable memory_access_out_of_bounds table_access_out_of_bounds elem_uninitialized : TrapKind
  division_by_zero invalid_conversion_to_int unexpected_signature stack_overflow : TrapKind
  host : Error → TrapKind

pub data WasmiError : Type 0 where
  validation instantiation function table memory global value : Bytes → WasmiError
  trap : TrapKind → WasmiError
  host : Error → WasmiError

-- `impl From<wasmi::Trap> for Error`
unfoldable pub from_trap : TrapKind → Error
from_trap TrapKind.unreachable = Error.unreachable
from_trap TrapKind.memory_access_out_of_bounds = Error.memory_access_violation
from_trap TrapKind.table_access_out_of_bounds = Error.invalid_virtual_call
from_trap TrapKind.elem_uninitialized = Error.invalid_virtual_call
from_trap TrapKind.division_by_zero = Error.division_by_zero
from_trap TrapKind.invalid_conversion_to_int = Error.invalid_conversion_to_int
from_trap TrapKind.unexpected_signature = Error.invalid_virtual_call
from_trap TrapKind.stack_overflow = Error.stack_overflow
from_trap (TrapKind.host _) = Error.other (codes "Host error")

-- `impl From<wasmi::Error> for Error`
unfoldable pub from_wasmi : (TrapKind → Bytes) → WasmiError → Error
from_wasmi show (WasmiError.validation msg) = Error.wasm (codes "Wasm validation error: " ++ msg)
from_wasmi show (WasmiError.instantiation msg) =
    Error.wasm (codes "Wasm Instantiation error: " ++ msg)
from_wasmi show (WasmiError.function msg) = Error.wasm (codes "Wasm Function error: " ++ msg)
from_wasmi show (WasmiError.table msg) = Error.wasm (codes "Wasm Table error: " ++ msg)
from_wasmi show (WasmiError.memory msg) = Error.wasm (codes "Wasm Memory error: " ++ msg)
from_wasmi show (WasmiError.global msg) = Error.wasm (codes "Wasm Global error: " ++ msg)
from_wasmi show (WasmiError.value msg) = Error.wasm (codes "Wasm Value error: " ++ msg)
from_wasmi show (WasmiError.trap k) = Error.wasm (codes "Wasm Trap error: " ++ show k)
from_wasmi show (WasmiError.host _) = Error.wasm (codes "Wasm Host error.")
