-- ===== src/Runtime/Guard.antt =====
-- The relation between the states of durian/src/runtime.rs before and after a host function, and the
-- rules by which it is shown for a computation.
pub mod Handlers
use durian.Base.{ℕ, ◌≤◌, ◌≡◌, refl, ◌∙◌, Option, none, some, arith, Bytes, ◌⊎◌, inl, inr, List}
use durian.Error.{WasmiError}
use durian.Exec.{Outcome, Exec, modify, on_field}
use durian.Exec.Steps.{Steps, IsPreorder, Steps-modify, steps_rules}
use durian.Types.{H256}
use durian.Schedule.{Schedule}
use durian.Crates.{Crates, Wasmi, RuntimeArgs}
use durian.Provider.{Provider}
use durian.State
use durian.State.{State}
use durian.State.ReadOnly.{SameProvider, state_rules}
use durian.State.Coherent.{IsCoherent}
use durian.State.Coherent.Kept.{KeepsCoherent, coherent_rules}
use durian.Runtime.{
  Runtime, charge_gas, charge, adjusted_charge, charge_amount, overflow_charge,
  adjusted_overflow_charge, on_state, arg_u32, arg_u64, memory_get, write_back, memory_set, h256_at,
  address_at, u256_at,
}
use durian.Runtime.Output.{push_log}

module _ {P M : Type 0} ⦃api : Provider P⦄ where
  pub record HostStep (s t : Runtime P M) : Type 0 where
    pub schedule : t.schedule ≡ s.schedule
    pub limit : t.gas_limit ≡ s.gas_limit
    pub params : t.params ≡ s.params
    pub provider : t.state.provider ≡ s.state.provider
    pub grows : s.gas_counter ≤ t.gas_counter
    pub bounded : s.gas_counter ≤ s.gas_limit → t.gas_counter ≤ t.gas_limit
    pub coherent : IsCoherent api s.state → IsCoherent api t.state

  pub HostStep-same : (s : Runtime P M) → HostStep s s
  HostStep-same s = record {
    schedule = refl;
    limit = refl;
    params = refl;
    provider = refl;
    grows = omega arith;
    bounded = λ h. h;
    coherent = λ c. c;
  }

  pub HostStep-chain : (s t u : Runtime P M) → HostStep s t → HostStep t u → HostStep s u
  HostStep-chain s t u p q = record {
    schedule = q.schedule ∙ p.schedule;
    limit = q.limit ∙ p.limit;
    params = q.params ∙ p.params;
    provider = q.provider ∙ p.provider;
    grows = omega arith;
    bounded = λ h. q.bounded (p.bounded h);
    coherent = λ c. q.coherent (p.coherent c);
  }

  instance abbrev pub host_step : IsPreorder HostStep
  host_step = record { same = HostStep-same; chain = HostStep-chain }

  state-charge_gas : (amount : ℕ) (s : Runtime P M) → (charge_gas amount s).1.state ≡ s.state
  unfolding charge_gas
  state-charge_gas amount s = ground arith

  pub charge_gas-HostStep : (amount : ℕ) → Steps HostStep (charge_gas amount)
  unfolding charge_gas
  charge_gas-HostStep amount = record {
    at = λ s. record {
      schedule = ground arith;
      limit = ground arith;
      params = ground arith;
      provider = ground arith;
      grows = ground arith;
      bounded = ground arith;
      coherent = λ c. rw (state-charge_gas amount s) c;
    };
  }

  pub charge-HostStep : (f : Schedule → Outcome ℕ) → Steps HostStep (charge f)
  unfolding charge
  charge-HostStep f = search (steps_rules, charge_gas-HostStep)

  pub adjusted_charge-HostStep : (f : Schedule → ℕ) → Steps HostStep (adjusted_charge f)
  unfolding adjusted_charge
  adjusted_charge-HostStep f = charge-HostStep _

  charge_amount-HostStep : (a : Option ℕ) → Steps HostStep (charge_amount a)
  unfolding charge_amount
  charge_amount-HostStep none = search steps_rules
  charge_amount-HostStep (some a) = search (steps_rules, charge_gas-HostStep)

  pub adjusted_overflow_charge-HostStep :
      (f : Schedule → Option ℕ) → Steps HostStep (adjusted_overflow_charge f)
  unfolding adjusted_overflow_charge overflow_charge
  adjusted_overflow_charge-HostStep f = search (steps_rules, charge_amount-HostStep)

  pub on_state-HostStep :
      {A : Type 0} (m : Exec (State P) A)
      → Steps SameProvider m
      → Steps KeepsCoherent m
      → Steps HostStep (on_state m)
  unfolding on_state on_field
  on_state-HostStep m h hc = record {
    at = λ s. record {
      schedule = refl;
      limit = refl;
      params = refl;
      provider = h.at s.state;
      grows = omega arith;
      bounded = λ b. b;
      coherent = hc.at s.state;
    };
  }

  pub HostStep-memory : (s : Runtime P M) (m : M) → HostStep s (record s { memory = m })
  HostStep-memory s m = record {
    schedule = refl;
    limit = refl;
    params = refl;
    provider = refl;
    grows = omega arith;
    bounded = λ b. b;
    coherent = λ c. c;
  }

  pub memory-HostStep :
      (f : Runtime P M → M) → Steps HostStep (modify (λ s. record s { memory = f s }))
  memory-HostStep f = Steps-modify _ λ s. HostStep-memory s (f s)

  pub result-HostStep :
      (bytes : Bytes) → Steps HostStep (modify (λ (s : Runtime P M). record s { result = bytes }))
  result-HostStep bytes = Steps-modify _ λ s. record {
    schedule = refl;
    limit = refl;
    params = refl;
    provider = refl;
    grows = omega arith;
    bounded = λ b. b;
    coherent = λ c. c;
  }

  pub push_log-HostStep :
      (topics : List H256) (bytes : Bytes) → Steps HostStep (modify (push_log topics bytes))
  push_log-HostStep topics bytes = Steps-modify _ λ s. record {
    schedule = refl;
    limit = refl;
    params = refl;
    provider = refl;
    grows = omega arith;
    bounded = λ b. b;
    coherent = λ c. c;
  }

pub ruleset meter_rules = (
  steps_rules, state_rules, coherent_rules, charge_gas-HostStep, charge-HostStep,
  adjusted_charge-HostStep, adjusted_overflow_charge-HostStep, on_state-HostStep, result-HostStep,
  push_log-HostStep,
)

module _ {P M : Type 0} ⦃api : Provider P⦄ ⦃crates : Crates⦄ ⦃wasmi : Wasmi M⦄ where
  pub arg_u32-HostStep :
      (args : RuntimeArgs) (i : ℕ) → Steps (HostStep {P = P} {M = M}) (arg_u32 args i)
  unfolding arg_u32
  arg_u32-HostStep args i = search steps_rules

  pub arg_u64-HostStep :
      (args : RuntimeArgs) (i : ℕ) → Steps (HostStep {P = P} {M = M}) (arg_u64 args i)
  unfolding arg_u64
  arg_u64-HostStep args i = search steps_rules

  pub memory_get-HostStep : (ptr len : ℕ) → Steps (HostStep {P = P} {M = M}) (memory_get ptr len)
  unfolding memory_get
  memory_get-HostStep ptr len = search steps_rules

  pub h256_at-HostStep : (ptr : ℕ) → Steps (HostStep {P = P} {M = M}) (h256_at ptr)
  unfolding h256_at
  h256_at-HostStep ptr = search steps_rules

  pub address_at-HostStep : (ptr : ℕ) → Steps (HostStep {P = P} {M = M}) (address_at ptr)
  unfolding address_at
  address_at-HostStep ptr = search steps_rules

  pub u256_at-HostStep : (ptr : ℕ) → Steps (HostStep {P = P} {M = M}) (u256_at ptr)
  unfolding u256_at
  u256_at-HostStep ptr = search steps_rules

  pub write_back-HostStep : (r : WasmiError ⊎ M) → Steps (HostStep {P = P} {M = M}) (write_back r)
  write_back-HostStep (inl e) = search steps_rules
  write_back-HostStep (inr m) = memory-HostStep (λ _. m)

  pub memory_set-HostStep :
      (ptr : ℕ) (bytes : Bytes) → Steps (HostStep {P = P} {M = M}) (memory_set ptr bytes)
  unfolding memory_set
  memory_set-HostStep ptr bytes = search (steps_rules, write_back-HostStep)

pub ruleset host_rules = (
  meter_rules, arg_u32-HostStep, arg_u64-HostStep, memory_get-HostStep, h256_at-HostStep,
  address_at-HostStep, u256_at-HostStep, memory_set-HostStep,
)
