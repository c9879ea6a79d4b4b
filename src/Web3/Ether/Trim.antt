-- ===== src/Web3/Ether/Trim.antt =====
-- `trim_end_matches` as examples/web3/src/types/transaction_request.rs uses it.
use durian.Base.{
  ℕ, suc, ◌≡◌, ◌≢◌, refl, sym, ap, [], ◌∷◌, ◌++◌, ◌==◌, replicate, Bool-cases, inl, inr, arith,
  Bytes,
}
use durian.Web3.Ether.{AreDigits, unless_all, trim_end}

pub nonempty_cons : (x : ℕ) (xs : Bytes) → x ∷ xs ≢ []
nonempty_cons x xs e = cc

append-nonempty : (xs ys : Bytes) → ys ≢ [] → xs ++ ys ≢ []
append-nonempty [] ys h e = h e
append-nonempty (x ∷ xs) ys h e = cc

unless_all-nonempty : (c b : ℕ) (t : Bytes) → t ≢ [] → unless_all c b t ≡ b ∷ t
unless_all-nonempty c b [] h = absurd (h refl)
unless_all-nonempty c b (x ∷ t) h = refl

-- What ends with something that stays is cut there only.
pub trim_end-append :
    (c : ℕ) (xs ys : Bytes) → trim_end c ys ≢ [] → trim_end c (xs ++ ys) ≡ xs ++ trim_end c ys
unfolding trim_end
trim_end-append c [] ys h = refl
trim_end-append c (x ∷ xs) ys h =
    rw (trim_end-append c xs ys h)
      (unless_all-nonempty c x (xs ++ trim_end c ys) (append-nonempty xs (trim_end c ys) h))

pub trim_end-append_cut :
    (c : ℕ) (xs ys : Bytes) → trim_end c ys ≡ [] → trim_end c (xs ++ ys) ≡ trim_end c xs
unfolding trim_end
trim_end-append_cut c [] ys h = h
trim_end-append_cut c (x ∷ xs) ys h = rw (trim_end-append_cut c xs ys h) refl

pub trim_end-AreDigits : (xs : Bytes) → AreDigits xs → trim_end 46 xs ≡ xs
unfolding trim_end
trim_end-AreDigits [] h = refl
trim_end-AreDigits (x ∷ []) (lo, hi, h) = ground arith
trim_end-AreDigits (x ∷ y ∷ r) (lo, hi, h) = rw (trim_end-AreDigits (y ∷ r) h) refl

unless_all-split :
    (c b k : ℕ) (t r : Bytes)
    → t ++ replicate k c ≡ r
    → (j : ℕ) × (unless_all c b t ++ replicate j c ≡ b ∷ r)
unless_all-split c b k [] r e = elim (Bool-cases (b == c)) [
  | inl same ↦ (suc k, ground arith)
  | inr other ↦ (k, ground arith)
]
unless_all-split c b k (x ∷ t) r e = (k, ap (λ (l : Bytes). b ∷ l) e)

pub trim_end-split : (c : ℕ) (xs : Bytes) → (k : ℕ) × (trim_end c xs ++ replicate k c ≡ xs)
unfolding trim_end
trim_end-split c [] = (0, refl)
trim_end-split c (x ∷ xs) =
    let (k, e) = trim_end-split c xs in unless_all-split c x k (trim_end c xs) xs e

pub trim_end-shortest : (c : ℕ) (xs r : Bytes) → trim_end c xs ≢ r ++ c ∷ []
unfolding trim_end
trim_end-shortest c [] r h = append-nonempty r (c ∷ []) (λ e. cc) (sym h)
trim_end-shortest c (x ∷ xs) [] h = ground arith
trim_end-shortest c (x ∷ xs) (y ∷ r) h = ground (arith, trim_end-shortest c xs r)
