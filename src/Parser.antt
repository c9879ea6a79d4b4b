-- ===== src/Parser.antt =====
-- durian/src/parser.rs: how code becomes a metered module. Parsing and the two injections are those
-- of parity-wasm and pwasm-utils, parameters here; the rules they are given are the source's.
use durian.Base.{
  ℕ, Bool, true, false, Option, none, some, List, [], ◌∷◌, ◌++◌, ◌⊎◌, inl, inr, ltb, if◌then◌else◌,
  Bytes, codes,
}
use durian.Error.{Error}
use durian.Exec.{Outcome, ok, err, and_then}
use durian.Types.{ActionParams}
use durian.WasmCost.{WasmCosts}

pub data InstructionType : Type 0 where
  load store div mul : InstructionType

-- `rules::Set`, every metering being `Metering::Fixed`.
pub record RuleSet : Type 0 where
  pub regular : ℕ
  pub entries : List (InstructionType × ℕ)
  pub grow : ℕ
  pub forbidden_floats : Bool

-- parity-wasm's modules (`Code`), and what parses and rewrites them.
pub record WasmTools (Code : Type 0) : Type 0 where
  pub deserialize : Bytes → Bytes ⊎ Code
  pub memory_section : Code → Option ℕ
  pub inject_gas_counter : Code → RuleSet → Option Code
  pub inject_limiter : Code → ℕ → Option Code

unfoldable pub gas_rules : WasmCosts → RuleSet
gas_rules costs = record {
  regular = costs.regular;
  entries =
      (InstructionType.load, costs.mem)
      ∷ (InstructionType.store, costs.mem)
      ∷ (InstructionType.div, costs.div)
      ∷ (InstructionType.mul, costs.mul)
      ∷ [];
  grow = costs.grow_mem;
  forbidden_floats = true;
}

-- `.map_err(..)` to an `Error::Wasm` with a text.
abbrev pub or_wasm_error {ℓ} : {A : Type ℓ} → Option A → Bytes → Outcome A
or_wasm_error none msg = err (Error.wasm msg)
or_wasm_error (some a) msg = ok a

-- `memory_section().map_or(false, |ms| ms.entries().len() > 0)`
abbrev pub has_memory : Option ℕ → Bool
has_memory none = false
has_memory (some entries) = ltb 0 entries

module _ {Code : Type 0} ⦃tools : WasmTools Code⦄ where
  abbrev deserialized : Bytes ⊎ Code → Outcome Code
  deserialized (inl e) =
      err (Error.wasm (codes "Error deserializing contract code (" ++ (e ++ codes ")")))
  deserialized (inr m) = ok m

  unfoldable pub payload : ActionParams → WasmCosts → Outcome Code
  unfolding gas_rules
  payload params costs =
      and_then (deserialized (tools.deserialize params.code)) λ deserialized_module.
        if has_memory (tools.memory_section deserialized_module)
        then err (Error.wasm (codes "Malformed wasm module: internal memory"))
        else and_then
            (or_wasm_error (tools.inject_gas_counter deserialized_module (gas_rules costs))
              (codes "Wasm contract error: bytecode invalid"))
            λ contract_module.
              or_wasm_error (tools.inject_limiter contract_module costs.max_stack_height)
                (codes "Wasm contract error: stack limiter failure")
