-- ===== src/Runtime/View.antt =====
-- Two runs of durian/src/runtime.rs on states that show the same: over any two providers and with any
-- two caches, but with the same schedule, gas, call, memory, result and log entries.
pub mod Queries
pub mod Handlers
use durian.Base.{ℕ, ◌≡◌, refl, Option, none, some, arith, Bytes, ◌⊎◌, inl, inr, List}
use durian.Error.{WasmiError}
use durian.Exec.{Outcome, Exec, query, gets, modify, on_field}
use durian.Exec.Related.{Related, related_rules}
use durian.Types.{H256}
use durian.Schedule.{Schedule}
use durian.Crates.{Crates, Wasmi, RuntimeArgs}
use durian.Provider.{Provider}
use durian.State.{State}
use durian.State.View.Same.{SameView}
use durian.Runtime.{
  Runtime, charge_gas, charge, adjusted_charge, charge_amount, overflow_charge,
  adjusted_overflow_charge, on_state, arg_u32, arg_u64, memory_get, write_back, memory_set, h256_at,
  address_at, u256_at,
}
use durian.Runtime.Output.{push_log}

-- The same run on another state.
abbrev pub on : {P Q M : Type 0} → State Q → Runtime P M → Runtime Q M
on t s = record {
  schedule = s.schedule;
  gas_counter = s.gas_counter;
  gas_limit = s.gas_limit;
  params = s.params;
  memory = s.memory;
  result = s.result;
  state = t;
  logs = s.logs;
}

pub record SameRun {P Q : Type 0} (M : Type 0) (api : Provider P) (other : Provider Q)
    (s : Runtime P M) (t : Runtime Q M) : Type 0 where
  pub rest : t ≡ on t.state s
  pub view : SameView api other s.state t.state

module _ {P Q M : Type 0} {api : Provider P} {other : Provider Q} where
  -- To show a relation it is enough to show it for a run and the same run on another state.
  pub SameRun-on :
      {A : Type 0} {m : Exec (Runtime P M) A} {n : Exec (Runtime Q M) A}
      → ((s : Runtime P M) (u : State Q)
          → SameView api other s.state u
          → ((m s).0 ≡ (n (on u s)).0) × SameRun M api other (m s).1 (n (on u s)).1)
      → Related (SameRun M api other) m n
  SameRun-on {m} {n} k = record { at = λ s t h. let at_on = k s t.state h.view in rw h.rest at_on }

  -- What is read of a run beside its state is the same.
  pub Related-reads :
      {A : Type 0} (f : Runtime P M → A) (g : Runtime Q M → A)
      → ((s : Runtime P M) (u : State Q) → f s ≡ g (on u s))
      → Related (SameRun M api other) (gets f) (gets g)
  unfolding gets
  Related-reads f g e = SameRun-on λ s u h. (rw (e s u) refl, record { rest = refl; view = h })

  pub Related-asks :
      {A : Type 0} (f : Runtime P M → Outcome A) (g : Runtime Q M → Outcome A)
      → ((s : Runtime P M) (u : State Q) → f s ≡ g (on u s))
      → Related (SameRun M api other) (query f) (query g)
  unfolding query
  Related-asks f g e = SameRun-on λ s u h. (e s u, record { rest = refl; view = h })

  -- A change beside the state.
  pub Related-changes :
      (f : Runtime P M → Runtime P M) (g : Runtime Q M → Runtime Q M)
      → ((s : Runtime P M) (u : State Q) → g (on u s) ≡ on u (f s))
      → ((s : Runtime P M) → (f s).state ≡ s.state)
      → Related (SameRun M api other) (modify f) (modify g)
  unfolding modify
  Related-changes f g e kept =
      SameRun-on λ s u h. (refl, record { rest = rw (e s u) refl; view = rw (e s u, kept s) h })

  pub charge_gas-Related :
      (amount : ℕ)
      → Related (SameRun {P = P} {Q = Q} M api other) (charge_gas amount) (charge_gas amount)
  unfolding charge_gas
  charge_gas-Related amount =
      SameRun-on λ s u h. (ground arith, record { rest = ground arith; view = ground (arith, h) })

  pub charge-Related :
      (f : Schedule → Outcome ℕ)
      → Related (SameRun {P = P} {Q = Q} M api other) (charge f) (charge f)
  unfolding charge
  charge-Related f = search (related_rules, charge_gas-Related, Related-asks)

  pub adjusted_charge-Related :
      (f : Schedule → ℕ)
      → Related (SameRun {P = P} {Q = Q} M api other) (adjusted_charge f) (adjusted_charge f)
  unfolding adjusted_charge
  adjusted_charge-Related f = charge-Related _

  charge_amount-Related :
      (a : Option ℕ)
      → Related (SameRun {P = P} {Q = Q} M api other) (charge_amount a) (charge_amount a)
  unfolding charge_amount
  charge_amount-Related none = search related_rules
  charge_amount-Related (some a) = search (related_rules, charge_gas-Related)

  pub adjusted_overflow_charge-Related :
      (f : Schedule → Option ℕ)
      → Related
          (SameRun {P = P} {Q = Q} M api other)
          (adjusted_overflow_charge f)
          (adjusted_overflow_charge f)
  unfolding adjusted_overflow_charge overflow_charge
  adjusted_overflow_charge-Related f = search (related_rules, charge_amount-Related, Related-asks)

  pub on_state-Related :
      {A : Type 0} (m : Exec (State P) A) (n : Exec (State Q) A)
      → Related (SameView api other) m n
      → Related (SameRun M api other) (on_state m) (on_state n)
  unfolding on_state on_field
  on_state-Related m n k =
      SameRun-on
        λ s u h. ((k.at s.state u h).0, record { rest = refl; view = (k.at s.state u h).1 })

  memory-Related :
      (m : M)
      → Related
          (SameRun {P = P} {Q = Q} M api other)
          (modify (λ s. record s { memory = m }))
          (modify (λ s. record s { memory = m }))
  memory-Related m = Related-changes _ _ (λ s u. refl) (λ s. refl)

  pub result-Related :
      (bytes : Bytes)
      → Related
          (SameRun {P = P} {Q = Q} M api other)
          (modify (λ s. record s { result = bytes }))
          (modify (λ s. record s { result = bytes }))
  result-Related bytes = Related-changes _ _ (λ s u. refl) (λ s. refl)

  pub push_log-Related :
      (topics : List H256) (bytes : Bytes)
      → Related
          (SameRun {P = P} {Q = Q} M api other)
          (modify (push_log topics bytes))
          (modify (push_log topics bytes))
  push_log-Related topics bytes = Related-changes _ _ (λ s u. refl) (λ s. refl)

module _ {P Q M : Type 0} {api : Provider P} {other : Provider Q} ⦃crates : Crates⦄
    ⦃wasmi : Wasmi M⦄ where
  pub arg_u32-Related :
      (args : RuntimeArgs) (i : ℕ)
      → Related (SameRun {P = P} {Q = Q} M api other) (arg_u32 args i) (arg_u32 args i)
  unfolding arg_u32
  arg_u32-Related args i = search related_rules

  pub arg_u64-Related :
      (args : RuntimeArgs) (i : ℕ)
      → Related (SameRun {P = P} {Q = Q} M api other) (arg_u64 args i) (arg_u64 args i)
  unfolding arg_u64
  arg_u64-Related args i = search related_rules

  pub memory_get-Related :
      (ptr len : ℕ)
      → Related (SameRun {P = P} {Q = Q} M api other) (memory_get ptr len) (memory_get ptr len)
  unfolding memory_get
  memory_get-Related ptr len = search Related-asks

  pub h256_at-Related :
      (ptr : ℕ) → Related (SameRun {P = P} {Q = Q} M api other) (h256_at ptr) (h256_at ptr)
  unfolding h256_at
  h256_at-Related ptr = search Related-asks

  pub address_at-Related :
      (ptr : ℕ) → Related (SameRun {P = P} {Q = Q} M api other) (address_at ptr) (address_at ptr)
  unfolding address_at
  address_at-Related ptr = search Related-asks

  pub u256_at-Related :
      (ptr : ℕ) → Related (SameRun {P = P} {Q = Q} M api other) (u256_at ptr) (u256_at ptr)
  unfolding u256_at
  u256_at-Related ptr = search (related_rules, Related-asks)

  write_back-Related :
      (r : WasmiError ⊎ M)
      → Related (SameRun {P = P} {Q = Q} M api other) (write_back r) (write_back r)
  write_back-Related (inl e) = search related_rules
  write_back-Related (inr m) = memory-Related m

  pub memory_set-Related :
      (ptr : ℕ) (bytes : Bytes)
      → Related (SameRun {P = P} {Q = Q} M api other) (memory_set ptr bytes) (memory_set ptr bytes)
  unfolding memory_set
  memory_set-Related ptr bytes = search (related_rules, write_back-Related, Related-reads)

pub ruleset view_rules = (
  related_rules, charge_gas-Related, charge-Related, adjusted_charge-Related,
  adjusted_overflow_charge-Related, on_state-Related, result-Related, push_log-Related,
  arg_u32-Related, arg_u64-Related, memory_get-Related, h256_at-Related, address_at-Related,
  u256_at-Related, memory_set-Related, Related-asks, Related-reads,
)
