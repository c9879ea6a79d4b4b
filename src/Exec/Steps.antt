-- ===== src/Exec/Steps.antt =====
-- What a computation does to the state, whether it returns, fails or panics: a relation between the
-- state before and after, with a rule for each way to build a computation. `search` applies them.
use durian.Base.{Bool, true, false, if◌then◌else◌}
use durian.Error.{Error}
use durian.Exec.{
  Outcome, ok, err, panicked, Exec, pure, raise, lift, query, gets, modify, unwrapped, continue,
  ◌>>=◌,
}

pub record Steps {ℓ} {S A : Type ℓ} (R : S → S → Type ℓ) (m : Exec S A) : Type ℓ where
  pub at : (s : S) → R s (m s).1

pub record IsPreorder {ℓ} {S : Type ℓ} (R : S → S → Type ℓ) : Type ℓ where
  pub same : (s : S) → R s s
  pub chain : (s t u : S) → R s t → R t u → R s u

module _ {ℓ} {S A : Type ℓ} {R : S → S → Type ℓ} ⦃pre : IsPreorder R⦄ where
  pub Steps-pure : (a : A) → Steps R (pure a)
  unfolding pure
  Steps-pure a = record { at = pre.same }

  pub Steps-raise : (e : Error) → Steps R (raise {A = A} e)
  unfolding raise
  Steps-raise e = record { at = pre.same }

  pub Steps-lift : (r : Outcome A) → Steps R (lift r)
  unfolding lift
  Steps-lift r = record { at = pre.same }

  pub Steps-query : (f : S → Outcome A) → Steps R (query f)
  unfolding query
  Steps-query f = record { at = pre.same }

  pub Steps-gets : (f : S → A) → Steps R (gets f)
  unfolding gets
  Steps-gets f = record { at = pre.same }

  pub Steps-unwrapped : (m : Exec S A) → Steps R m → Steps R (unwrapped m)
  unfolding unwrapped
  Steps-unwrapped m h = record { at = λ s. h.at s }

  pub Steps-if : (b : Bool) (m n : Exec S A) → Steps R m → Steps R n → Steps R (if b then m else n)
  Steps-if true m n km kn = km
  Steps-if false m n km kn = kn

module _ {ℓ} {S : Type ℓ} {R : S → S → Type ℓ} where
  pub Steps-modify : (f : S → S) → ((s : S) → R s (f s)) → Steps R (modify f)
  unfolding modify
  Steps-modify f h = record { at = h }

module _ {ℓ} {S A B : Type ℓ} {R : S → S → Type ℓ} ⦃pre : IsPreorder R⦄ where
  Steps-continue :
      (r : Outcome A) (f : A → Exec S B) (s : S)
      → ((a : A) → Steps R (f a))
      → R s (continue r f s).1
  Steps-continue (ok a) f s k = (k a).at s
  Steps-continue (err e) f s k = pre.same s
  Steps-continue panicked f s k = pre.same s

  pub Steps-bind :
      (m : Exec S A) (f : A → Exec S B) → Steps R m → ((a : A) → Steps R (f a)) → Steps R (m >>= f)
  unfolding ◌>>=◌
  Steps-bind m f km kf = record {
    at = λ s.
        let (r, s') = m s in
        pre.chain s s' (continue r f s').1 (km.at s) (Steps-continue r f s' kf);
  }

pub ruleset steps_rules = (
  Steps-pure, Steps-raise, Steps-lift, Steps-query, Steps-gets, Steps-unwrapped, Steps-if,
  Steps-bind,
)
