-- ===== src/Env/Imports.antt =====
-- What a contract can import under durian/src/env.rs.
use durian.Base.{ℕ, ◌+◌, ◌≤◌, ◌<◌, ◌^◌, ◌≡◌, inr, some, String, arith}
use durian.Exec.{ok}
use durian.Crates.{Wasmi}
use durian.Env.{ImportResolver, MemoryDescriptor, unwrap_or, memory_ref, resolve_memory}

module _ {M : Type 0} ⦃wasmi : Wasmi M⦄ where
  -- Where the limit and one more fit in 32 bits, a memory that a contract gets asks for no more pages
  -- than the limit, and states a maximum that is no more either: one without a maximum is refused.
  -- The resolver keeps the memory, and its limit.
  pub resolve_memory_bounds :
      (r : ImportResolver M) (name : String) (d : MemoryDescriptor) {m : M} {r' : ImportResolver M}
      → r.max_memory + 1 < 2 ^ 32
      → resolve_memory r name d ≡ inr (m, r')
      → (d.initial ≤ r.max_memory)
        × (top : ℕ) × (d.maximum ≡ some top)
        × (top ≤ r.max_memory)
        × (r'.memory ≡ some m)
        × (r'.max_memory ≡ r.max_memory)
  unfolding resolve_memory
  resolve_memory_bounds r name d h e =
      (ground arith, unwrap_or d.maximum 0, ground arith, ground arith, ground arith, ground arith)

  -- The memory that the resolver hands out is the same at every later question, and so is its size.
  pub memory_ref-memory_ref :
      (r : ImportResolver M) {m : M} {r' : ImportResolver M}
      → memory_ref r ≡ ok (m, r')
      → memory_ref r' ≡ ok (m, r')
  unfolding memory_ref
  memory_ref-memory_ref r h = ground arith
