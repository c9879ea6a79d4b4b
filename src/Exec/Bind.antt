-- ===== src/Exec/Bind.antt =====
-- Inversion of a chain that returned: its first part returned, and the rest did from there.
use durian.Base.{◌≡◌, refl, ◌⊎◌, inl, inr}
use durian.Error.{Error}
use durian.Exec.{Outcome, ok, err, panicked, Exec, unwrap, unwrapped, continue, ◌>>=◌}

pub Outcome-cases {ℓ} :
    {A : Type ℓ} (o : Outcome A)
    → ((a : A) × (o ≡ ok a)) ⊎ ((e : Error) × (o ≡ err e)) ⊎ (o ≡ panicked)
Outcome-cases (ok a) = inl (a, refl)
Outcome-cases (err e) = inr (inl (e, refl))
Outcome-cases panicked = inr (inr refl)

unwrap-eq-ok {ℓ} : {A : Type ℓ} (o : Outcome A) {a : A} → unwrap o ≡ ok a → o ≡ ok a
unwrap-eq-ok (ok a) h = h
unwrap-eq-ok (err e) h = absurd cc
unwrap-eq-ok panicked h = absurd cc

pub unwrapped-eq-ok {ℓ} :
    {S A : Type ℓ} (m : Exec S A) (s : S) {a : A} → (unwrapped m s).0 ≡ ok a → (m s).0 ≡ ok a
unfolding unwrapped
unwrapped-eq-ok m s h = unwrap-eq-ok (m s).0 h

module _ {ℓ} {S A B : Type ℓ} where
  continue-eq-ok :
      (r : Outcome A) (f : A → Exec S B) (s : S) {b : B}
      → (continue r f s).0 ≡ ok b
      → (a : A) × (r ≡ ok a) × ((f a s).0 ≡ ok b)
  continue-eq-ok (ok a) f s h = (a, refl, h)
  continue-eq-ok (err e) f s h = cc
  continue-eq-ok panicked f s h = cc

  continue-keeps :
      (holds : S → Type ℓ) (r : Outcome A) (f : A → Exec S B) (t : S)
      → holds t
      → ((a : A) → r ≡ ok a → holds (f a t).1)
      → holds (continue r f t).1
  continue-keeps holds (ok a) f t h hf = hf a refl
  continue-keeps holds (err e) f t h hf = h
  continue-keeps holds panicked f t h hf = h

  pub >>=-eq-ok :
      (m : Exec S A) (f : A → Exec S B) (s : S) {b : B}
      → ((m >>= f) s).0 ≡ ok b
      → (a : A) × ((m s).0 ≡ ok a) × ((f a (m s).1).0 ≡ ok b)
  unfolding ◌>>=◌
  >>=-eq-ok m f s h = let (r, s') = m s in continue-eq-ok r f s' h

  pub >>=-after :
      (m : Exec S A) (f : A → Exec S B) (s : S) {a : A} → (m s).0 ≡ ok a → (m >>= f) s ≡ f a (m s).1
  unfolding ◌>>=◌
  >>=-after m f s h = rw h refl

  -- Both at once.
  pub >>=-ok :
      (m : Exec S A) (f : A → Exec S B) (s : S) {b : B}
      → ((m >>= f) s).0 ≡ ok b
      → (a : A) × ((m s).0 ≡ ok a) × ((f a (m s).1).0 ≡ ok b) × ((m >>= f) s ≡ f a (m s).1)
  >>=-ok m f s h = let (a, e1, e2) = >>=-eq-ok m f s h in (a, e1, e2, >>=-after m f s e1)

  -- What holds after the first computation, and after the second where the first returns.
  pub >>=-keeps :
      (holds : S → Type ℓ) (m : Exec S A) (f : A → Exec S B) (s : S)
      → holds (m s).1
      → ((a : A) → (m s).0 ≡ ok a → holds (f a (m s).1).1)
      → holds ((m >>= f) s).1
  unfolding ◌>>=◌
  >>=-keeps holds m f s h hf = let (r, t) = m s in continue-keeps holds r f t h hf
