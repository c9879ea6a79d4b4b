-- ===== src/Exec/Same.antt =====
-- When two computations do the same from every state where an invariant holds, and keep it: a rule
-- for each way to build a computation. `search` applies them.
use durian.Base.{◌≡◌, refl, Bool, true, false, if◌then◌else◌}
use durian.Error.{Error}
use durian.Exec.{
  Outcome, ok, err, panicked, Exec, pure, raise, lift, query, gets, modify, unwrapped, continue,
  ◌>>=◌,
}

pub record Same {ℓ} {S A : Type ℓ} (Holds : S → Type ℓ) (m m' : Exec S A) : Type ℓ where
  pub at : (s : S) → Holds s → (m s ≡ m' s) × Holds (m' s).1

module _ {ℓ} {S A : Type ℓ} {Holds : S → Type ℓ} where
  pub Same-pure : (a : A) → Same Holds (pure a) (pure a)
  unfolding pure
  Same-pure a = record { at = λ s h. (refl, h) }

  pub Same-raise : (e : Error) → Same Holds (raise {A = A} e) (raise e)
  unfolding raise
  Same-raise e = record { at = λ s h. (refl, h) }

  pub Same-lift : (r : Outcome A) → Same Holds (lift r) (lift r)
  unfolding lift
  Same-lift r = record { at = λ s h. (refl, h) }

  pub Same-query : (f : S → Outcome A) → Same Holds (query f) (query f)
  unfolding query
  Same-query f = record { at = λ s h. (refl, h) }

  -- Two queries that agree where the invariant holds.
  pub Same-queries :
      (f g : S → Outcome A) → ((s : S) → Holds s → f s ≡ g s) → Same Holds (query f) (query g)
  unfolding query
  Same-queries f g e = record { at = λ s h. (rw (e s h) refl, h) }

  pub Same-gets : (f : S → A) → Same Holds (gets f) (gets f)
  unfolding gets
  Same-gets f = record { at = λ s h. (refl, h) }

  pub Same-both : (f g : S → A) → ((s : S) → Holds s → f s ≡ g s) → Same Holds (gets f) (gets g)
  unfolding gets
  Same-both f g e = record { at = λ s h. (rw (e s h) refl, h) }

  pub Same-unwrapped : (m n : Exec S A) → Same Holds m n → Same Holds (unwrapped m) (unwrapped n)
  unfolding unwrapped
  Same-unwrapped m n k = record { at = λ s h. (rw (k.at s h).0 refl, (k.at s h).1) }

  pub Same-if :
      (b : Bool) (m n m' n' : Exec S A)
      → Same Holds m m'
      → Same Holds n n'
      → Same Holds (if b then m else n) (if b then m' else n')
  Same-if true m n m' n' km kn = km
  Same-if false m n m' n' km kn = kn

  -- A test whose outcome is known in its branch.
  pub Same-if_known :
      (b : Bool) (m n m' n' : Exec S A)
      → (b ≡ true → Same Holds m m')
      → Same Holds n n'
      → Same Holds (if b then m else n) (if b then m' else n')
  Same-if_known true m n m' n' km kn = km refl
  Same-if_known false m n m' n' km kn = kn

module _ {ℓ} {S : Type ℓ} {Holds : S → Type ℓ} where
  pub Same-modify :
      (f : S → S) → ((s : S) → Holds s → Holds (f s)) → Same Holds (modify f) (modify f)
  unfolding modify
  Same-modify f k = record { at = λ s h. (refl, k s h) }

module _ {ℓ} {S A B : Type ℓ} where
  continue_agrees :
      (r : Outcome A) (f g : A → Exec S B) (s : S)
      → ((a : A) → r ≡ ok a → f a s ≡ g a s)
      → continue r f s ≡ continue r g s
  continue_agrees (ok a) f g s e = e a refl
  continue_agrees (err er) f g s e = refl
  continue_agrees panicked f g s e = refl

module _ {ℓ} {S A B : Type ℓ} {Holds : S → Type ℓ} where
  Same-continue :
      (r : Outcome A) (f g : A → Exec S B) (s : S)
      → Holds s
      → ((a : A) → r ≡ ok a → Same Holds (f a) (g a))
      → (continue r f s ≡ continue r g s) × Holds (continue r g s).1
  Same-continue (ok a) f g s h k = (k a refl).at s h
  Same-continue (err e) f g s h k = (refl, h)
  Same-continue panicked f g s h k = (refl, h)

  -- A chain whose rest may rely on what is known of the first part's result.
  pub Same-bind_knowing :
      (IsKnown : A → Type ℓ) (m m' : Exec S A) (f g : A → Exec S B)
      → Same Holds m m'
      → ((s : S) (a : A) → Holds s → (m' s).0 ≡ ok a → IsKnown a)
      → ((a : A) → IsKnown a → Same Holds (f a) (g a))
      → Same Holds (m >>= f) (m' >>= g)
  unfolding ◌>>=◌
  Same-bind_knowing IsKnown m m' f g km known kf = record {
    at = λ s h.
        rw (km.at s h).0
          (Same-continue (m' s).0 f g (m' s).1 (km.at s h).1 (λ a e. kf a (known s a h e)));
  }

  pub Same-bind :
      (m m' : Exec S A) (f g : A → Exec S B)
      → Same Holds m m'
      → ((a : A) → Same Holds (f a) (g a))
      → Same Holds (m >>= f) (m' >>= g)
  unfolding ◌>>=◌
  Same-bind m m' f g km kf = record {
    at = λ s h. rw (km.at s h).0 (Same-continue (m' s).0 f g (m' s).1 (km.at s h).1 (λ a e. kf a));
  }

  -- The end of a chain need not keep the invariant.
  pub bind_agrees :
      (m m' : Exec S A) (f g : A → Exec S B) (s : S)
      → Same Holds m m'
      → ((a : A) (t : S) → (m' s).0 ≡ ok a → Holds t → f a t ≡ g a t)
      → Holds s
      → (m >>= f) s ≡ (m' >>= g) s
  unfolding ◌>>=◌
  bind_agrees m m' f g s km kf h =
      rw (km.at s h).0
        (continue_agrees (m' s).0 f g (m' s).1 (λ a e. kf a (m' s).1 e (km.at s h).1))

pub ruleset same_rules =
    (Same-pure, Same-raise, Same-lift, Same-query, Same-gets, Same-unwrapped, Same-if, Same-bind)
