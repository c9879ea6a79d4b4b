-- ===== src/Exec.antt =====
-- Methods on `&mut self` that may fail: a computation takes the object and returns it, changed,
-- beside the outcome. What was written before an error stays written. A Rust panic is an outcome of
-- its own, which no code here catches.
pub mod Steps
pub mod Bind
pub mod Same
pub mod Related
use durian.Base.{Option, none, some, ◌⊎◌, inl, inr}
use durian.Error.{Error}

pub data Outcome {ℓ} (A : Type ℓ) : Type ℓ where
  ok : A → Outcome A
  err : Error → Outcome A
  panicked : Outcome A

abbrev pub Exec {ℓ} : Type ℓ → Type ℓ → Type ℓ
Exec S A = S → Outcome A × S

module _ {ℓ} {A : Type ℓ} where
  -- `.unwrap()` and `.expect(..)`: an error becomes a panic.
  abbrev pub unwrap : Outcome A → Outcome A
  unwrap (ok a) = ok a
  unwrap (err e) = panicked
  unwrap panicked = panicked

  -- `.unwrap()` on an `Option`.
  abbrev pub unwrap_option : Option A → Outcome A
  unwrap_option (some a) = ok a
  unwrap_option none = panicked

  -- `if let Ok(a) = ..`: an error is dropped.
  abbrev pub if_ok : Outcome A → Outcome (Option A)
  if_ok (ok a) = ok (some a)
  if_ok (err e) = ok none
  if_ok panicked = panicked

  -- `?` on a result of another error type, converted by its `From` instance.
  abbrev pub convert {κ} : {E : Type κ} → (E → Error) → E ⊎ A → Outcome A
  convert f (inl e) = err (f e)
  convert f (inr a) = ok a

-- Chaining of outcomes that touch no state.
abbrev pub and_then {ℓ κ} : {A : Type ℓ} {B : Type κ} → Outcome A → (A → Outcome B) → Outcome B
and_then (ok a) f = f a
and_then (err e) f = err e
and_then panicked f = panicked

module _ {ℓ} {S A : Type ℓ} where
  unfoldable pub pure : A → Exec S A
  pure a s = (ok a, s)

  unfoldable pub raise : Error → Exec S A
  raise e s = (err e, s)

  unfoldable pub lift : Outcome A → Exec S A
  lift r s = (r, s)

  -- A call that reads the object only.
  unfoldable pub query : (S → Outcome A) → Exec S A
  query f s = (f s, s)

  unfoldable pub gets : (S → A) → Exec S A
  gets f s = (ok (f s), s)

  -- `m.unwrap()`
  unfoldable pub unwrapped : Exec S A → Exec S A
  unwrapped m s = let (r, s') = m s in (unwrap r, s')

module _ {ℓ} {S : Type ℓ} where
  unfoldable pub modify : (S → S) → Exec S (Unit {ℓ})
  modify f s = (ok tt, f s)

module _ {ℓ} {S A B : Type ℓ} where
  abbrev pub continue : Outcome A → (A → Exec S B) → Exec S B
  continue (ok a) f s = f a s
  continue (err e) f s = (err e, s)
  continue panicked f s = (panicked, s)

  infixl 10 ◌>>=◌ ◌>>◌
  unfoldable pub ◌>>=◌ : Exec S A → (A → Exec S B) → Exec S B
  unfolding pure raise lift query gets modify
  ◌>>=◌ m f s = let (r, s') = m s in continue r f s'

  abbrev pub ◌>>◌ : Exec S A → Exec S B → Exec S B
  m >> n = m >>= λ _. n

-- A method call on a field of the object.
module _ {ℓ} {S T : Type ℓ} (view : S → T) (put : T → S → S) where
  unfoldable pub on_field : {A : Type ℓ} → Exec T A → Exec S A
  on_field m s = let (r, t) = m (view s) in (r, put t s)
