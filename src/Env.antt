-- ===== src/Env.antt =====
-- durian/src/env.rs: the numbers of the host functions, the names under which a contract imports
-- them, and the memory that a contract may import. The resolver's `RefCell` with the memory is a
-- field, which the methods that fill it return changed.
mod Ids
mod Signatures
pub mod Imports
pub use Ids.*
pub use Signatures.*
use text.Mathlib.Text.{◌==◌ as str_eq}
use durian.Base.{
  ℕ, ◌+◌, ◌%◌, ◌^◌, Bool, Option, none, some, String, List, [], ◌∷◌, ◌++◌, ltb, if◌then◌else◌, ◌⊎◌,
  inl, inr, ◌&&◌, ◌||◌, codes,
}
use durian.Error.{WasmiError}
use durian.Exec.{Outcome, ok, panicked, and_then}
use durian.WasmCost.{WasmCosts}
use durian.Crates.{Wasmi}

-- What `host(signature, index)` allocates.
pub record FuncRef : Type 0 where
  pub signature : Signature
  pub index : ℕ

abbrev host : Signature → ℕ → FuncRef
host signature index = record { signature = signature; index = index }

-- `ImportResolver`, with the memory cell of type `M` that it fills on demand.
pub record ImportResolver (M : Type 0) : Type 0 where
  pub max_memory : ℕ
  pub memory : Option M
  pub have_create2 : Bool
  pub have_gasleft : Bool

-- The arms of `resolve_func` that have no guard.
unfoldable pub import_table : List (String × FuncRef)
import_table =
    ("storage_read", host storage_read_sig storage_read_func)
    ∷ ("storage_write", host storage_write_sig storage_write_func)
    ∷ ("ret", host ret_sig ret_func)
    ∷ ("gas", host gas_sig gas_func)
    ∷ ("input_length", host input_length_sig input_length_func)
    ∷ ("fetch_input", host fetch_input_sig fetch_input_func)
    ∷ ("panic", host panic_sig panic_func)
    ∷ ("debug", host debug_sig debug_func)
    ∷ ("ccall", host ccall_sig ccall_func)
    ∷ ("dcall", host dcall_sig dcall_func)
    ∷ ("scall", host scall_sig scall_func)
    ∷ ("value", host value_sig value_func)
    ∷ ("create", host create_sig create_func)
    ∷ ("suicide", host suicide_sig suicide_func)
    ∷ ("block_hash", host block_hash_sig block_hash_func)
    ∷ ("blocknumber", host block_number_sig block_number_func)
    ∷ ("coinbase", host block_author_sig block_author_func)
    ∷ ("difficulty", host difficulty_sig difficulty_func)
    ∷ ("gaslimit", host gaslimit_sig gaslimit_func)
    ∷ ("timestamp", host timestamp_sig timestamp_func)
    ∷ ("address", host address_sig address_func)
    ∷ ("sender", host sender_sig sender_func)
    ∷ ("origin", host origin_sig origin_func)
    ∷ ("elog", host elog_sig elog_func)
    ∷ []

unfoldable pub find_import : String → List (String × FuncRef) → Option FuncRef
find_import name [] = none
find_import name ((n, f) ∷ rest) = if str_eq name n then some f else find_import name rest

-- `MemoryDescriptor`, in pages of 64 kB.
pub record MemoryDescriptor : Type 0 where
  pub initial : ℕ
  pub maximum : Option ℕ

abbrev pub unwrap_or : Option ℕ → ℕ → ℕ
unwrap_or none d = d
unwrap_or (some n) _ = n

module _ {M : Type 0} where
  -- `ImportResolver::with_limit`
  unfoldable pub with_limit : ℕ → WasmCosts → ImportResolver M
  with_limit max_memory costs = record {
    max_memory = max_memory;
    memory = none;
    have_create2 = costs.have_create2;
    have_gasleft = costs.have_gasleft;
  }

  -- `resolve_func`: the arms with a guard stand behind the table, whose names differ from theirs.
  unfoldable pub resolve_func : ImportResolver M → String → WasmiError ⊎ FuncRef
  resolve_func r field_name = elim (find_import field_name import_table) [
    | some f ↦ inr f
    | none ↦
        if str_eq field_name "create2" && r.have_create2
        then inr (host create2_sig create2_func)
        else if str_eq field_name "gasleft" && r.have_gasleft
        then inr (host gasleft_sig gasleft_func)
        else inl
            (WasmiError.instantiation (codes "Export " ++ (codes field_name ++ codes " not found")))
  ]

module _ {M : Type 0} ⦃wasmi : Wasmi M⦄ where
  abbrev fill : ImportResolver M → WasmiError ⊎ M → Outcome (M × ImportResolver M)
  fill r (inl e) = panicked
  fill r (inr m) = ok (m, record r { memory = some m })

  -- `memory_ref`: the memory that was imported, or else an empty one, made and kept.
  unfoldable pub memory_ref : ImportResolver M → Outcome (M × ImportResolver M)
  memory_ref r = elim r.memory [ some m ↦ ok (m, r) | none ↦ fill r (wasmi.alloc 0 (some 0)) ]

  unfoldable pub memory_size : ImportResolver M → Outcome (ℕ × ImportResolver M)
  memory_size r = and_then (memory_ref r) λ found. ok (wasmi.current_size found.0 % 2 ^ 32, found.1)

  abbrev keep : ImportResolver M → WasmiError ⊎ M → WasmiError ⊎ (M × ImportResolver M)
  keep r (inl e) = inl e
  keep r (inr m) = inr (m, record r { memory = some m })

  -- `resolve_memory`: `max_memory + 1` is computed in 32 bits.
  unfoldable pub resolve_memory :
      ImportResolver M → String → MemoryDescriptor → WasmiError ⊎ (M × ImportResolver M)
  resolve_memory r field_name descriptor =
      if str_eq field_name "memory"
      then (let effective_max = unwrap_or descriptor.maximum ((r.max_memory + 1) % 2 ^ 32) in
          if ltb r.max_memory descriptor.initial || ltb r.max_memory effective_max
          then inl (WasmiError.instantiation (codes "Module requested too much memory"))
          else keep r (wasmi.alloc descriptor.initial descriptor.maximum))
      else inl (WasmiError.instantiation (codes "Memory imported under unknown name"))
