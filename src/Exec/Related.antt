-- ===== src/Exec/Related.antt =====
-- When two computations, each on its own kind of state, go alike: from related states they have the
-- same outcome and end in related states. A rule for each way to build a computation, which `search`
-- applies.
use durian.Base.{◌≡◌, refl, Bool, true, false, if◌then◌else◌}
use durian.Error.{Error}
use durian.Exec.{
  Outcome, ok, err, panicked, Exec, pure, raise, lift, query, gets, modify, unwrapped, continue,
  ◌>>=◌,
}

pub record Related {ℓ} {S T A : Type ℓ} (R : S → T → Type ℓ) (m : Exec S A) (n : Exec T A)
    : Type ℓ where
  pub at : (s : S) (t : T) → R s t → ((m s).0 ≡ (n t).0) × R (m s).1 (n t).1

module _ {ℓ} {S T A : Type ℓ} {R : S → T → Type ℓ} where
  pub Related-pure : (a : A) → Related R (pure a) (pure a)
  unfolding pure
  Related-pure a = record { at = λ s t h. (refl, h) }

  pub Related-raise : (e : Error) → Related R (raise {A = A} e) (raise e)
  unfolding raise
  Related-raise e = record { at = λ s t h. (refl, h) }

  pub Related-lift : (r : Outcome A) → Related R (lift r) (lift r)
  unfolding lift
  Related-lift r = record { at = λ s t h. (refl, h) }

  pub Related-query :
      (f : S → Outcome A) (g : T → Outcome A)
      → ((s : S) (t : T) → R s t → f s ≡ g t)
      → Related R (query f) (query g)
  unfolding query
  Related-query f g e = record { at = λ s t h. (e s t h, h) }

  pub Related-gets :
      (f : S → A) (g : T → A) → ((s : S) (t : T) → R s t → f s ≡ g t) → Related R (gets f) (gets g)
  unfolding gets
  Related-gets f g e = record { at = λ s t h. (rw (e s t h) refl, h) }

  pub Related-unwrapped :
      (m : Exec S A) (n : Exec T A) → Related R m n → Related R (unwrapped m) (unwrapped n)
  unfolding unwrapped
  Related-unwrapped m n k = record { at = λ s t h. (rw (k.at s t h).0 refl, (k.at s t h).1) }

  pub Related-if :
      (b : Bool) (m m' : Exec S A) (n n' : Exec T A)
      → Related R m n
      → Related R m' n'
      → Related R (if b then m else m') (if b then n else n')
  Related-if true m m' n n' k k' = k
  Related-if false m m' n n' k k' = k'

module _ {ℓ} {S T : Type ℓ} {R : S → T → Type ℓ} where
  pub Related-modify :
      (f : S → S) (g : T → T)
      → ((s : S) (t : T) → R s t → R (f s) (g t))
      → Related R (modify f) (modify g)
  unfolding modify
  Related-modify f g k = record { at = λ s t h. (refl, k s t h) }

module _ {ℓ} {S T A B : Type ℓ} {R : S → T → Type ℓ} where
  Related-continue :
      (r : Outcome A) (f : A → Exec S B) (g : A → Exec T B) (s : S) (t : T)
      → R s t
      → ((a : A) → Related R (f a) (g a))
      → ((continue r f s).0 ≡ (continue r g t).0) × R (continue r f s).1 (continue r g t).1
  Related-continue (ok a) f g s t h k = (k a).at s t h
  Related-continue (err e) f g s t h k = (refl, h)
  Related-continue panicked f g s t h k = (refl, h)

  pub Related-bind :
      (m : Exec S A) (n : Exec T A) (f : A → Exec S B) (g : A → Exec T B)
      → Related R m n
      → ((a : A) → Related R (f a) (g a))
      → Related R (m >>= f) (n >>= g)
  unfolding ◌>>=◌
  Related-bind m n f g km kf = record {
    at = λ s t h.
        rw (km.at s t h).0 (Related-continue (n t).0 f g (m s).1 (n t).1 (km.at s t h).1 kf);
  }

pub ruleset related_rules =
    (Related-pure, Related-raise, Related-lift, Related-unwrapped, Related-if, Related-bind)
