-- ===== src/Runtime/Gas.antt =====
-- Charges of the gas meter of durian/src/runtime.rs, one after another.
use durian.Base.{ℕ, ◌+◌, ◌^◌, ◌≤◌, ◌<◌, ◌≡◌, ◌⊎◌, inl, inr, refl, ap, ◌∙◌, List, [], ◌∷◌, arith}
use durian.Error.{Error}
use durian.Exec.{Outcome, ok, err, Exec, pure, ◌>>=◌, ◌>>◌}
use durian.Runtime.{Runtime, charge_gas, charge}

abbrev pub total : List ℕ → ℕ
total [] = 0
total (amount ∷ amounts) = amount + total amounts

module _ {P M : Type 0} where
  -- A contract's charges, up to the first that is refused.
  unfoldable pub charge_each : List ℕ → Exec (Runtime P M) Unit
  charge_each [] = pure tt
  charge_each (amount ∷ amounts) = do charge (λ _. ok amount); charge_each amounts

  one_charge :
      (amount : ℕ) (s : Runtime P M)
      → s.gas_limit < 2 ^ 64
      → ((s.gas_counter + amount ≤ s.gas_limit)
          × (charge (λ _. ok amount) s
              ≡ (ok tt, record s { gas_counter = s.gas_counter + amount })))
        ⊎ ((s.gas_limit < s.gas_counter + amount)
            × (charge (λ _. ok amount) s ≡ (err Error.gas_limit, s)))
  unfolding charge charge_gas ◌>>=◌
  one_charge amount s limit = ground arith

  with_counter :
      (s : Runtime P M) {m n : ℕ}
      → m ≡ n
      → ◌≡◌ {A = Outcome (Unit {0}) × Runtime P M}
          (ok tt, record s { gas_counter = m })
          (ok tt, record s { gas_counter = n })
  with_counter s e = ap (λ c. (ok tt, record s { gas_counter = c })) e

  -- Any series of charges goes through exactly where all of them together fit under the limit, in
  -- whatever portions they come; the counter has then grown by their sum. Else it ends by the error
  -- `GasLimit`, and the counter has not passed the limit. Nothing but the counter changes. The
  -- counter starts within the limit, which is a number of 64 bits.
  pub charge_each-exact :
      (amounts : List ℕ) (s : Runtime P M)
      → s.gas_counter ≤ s.gas_limit
      → s.gas_limit < 2 ^ 64
      → ((s.gas_counter + total amounts ≤ s.gas_limit)
          × (charge_each amounts s
              ≡ (ok tt, record s { gas_counter = s.gas_counter + total amounts })))
        ⊎ ((s.gas_limit < s.gas_counter + total amounts)
            × (counter : ℕ) × (s.gas_counter ≤ counter)
            × (counter ≤ s.gas_limit)
            × (charge_each amounts s ≡ (err Error.gas_limit, record s { gas_counter = counter })))
  unfolding charge_each ◌>>=◌
  charge_each-exact [] s within limit = inl (omega (arith, within), with_counter s (omega arith))
  charge_each-exact (amount ∷ amounts) s within limit = elim (one_charge amount s limit) [
    | inl (fits, e) ↦
        elim (charge_each-exact amounts (record s { gas_counter = s.gas_counter + amount }) fits
          limit) [
            | inl (rest, e') ↦ inl (omega (arith, rest), rw e (e' ∙ with_counter s (omega arith)))
            | inr (over, counter, above, below, e') ↦
                inr (omega (arith, over), counter, omega (arith, above), below, rw e e')
          ]
    | inr (over, e) ↦ inr (omega (arith, over), s.gas_counter, omega arith, within, rw e refl)
  ]
