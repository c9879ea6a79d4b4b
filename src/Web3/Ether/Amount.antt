-- ===== src/Web3/Ether/Amount.antt =====
-- The amount that the text of `format_ether` (examples/web3/src/types/transaction_request.rs) shows.
use durian.Base.{
  ℕ, ◌+◌, ◌-◌, ◌*◌, ◌^◌, ◌≤◌, ◌≡◌, ◌≢◌, refl, sym, ap, ◌∙◌, [], ◌∷◌, ◌++◌, length, length-append,
  length-replicate, replicate, arith, Bytes,
}
use mathlib.Core.Path.{subst}
use durian.Decimal.{value_from}
use durian.Web3.Ether.{AreDigits, IsDecimal, unless_all, trim_end, format_ether}
use durian.Web3.Ether.Digits.{AreDigits-front, value_from-append, value_from-zeros}
use durian.Web3.Ether.Trim.{
  nonempty_cons, trim_end-append, trim_end-append_cut, trim_end-AreDigits, trim_end-split,
  trim_end-shortest,
}
use durian.Web3.Ether.Pointed.{IsPointed-digits}

-- A text of an amount in ether: digits, and behind a point no more decimals than are needed.
abbrev joined : Bytes → Bytes → Bytes
joined whole [] = whole
joined whole (d ∷ r) = whole ++ 46 ∷ d ∷ r

pub record IsEther (text : Bytes) (wei : ℕ) : Type 0 where
  pub whole : Bytes
  pub frac : Bytes
  pub form : text ≡ joined whole frac
  pub whole_digits : AreDigits whole
  pub frac_digits : AreDigits frac
  pub nonempty : whole ≢ []
  pub places : length frac ≤ 18
  pub shortest : (r : Bytes) → frac ≢ r ++ 48 ∷ []
  pub value : value_from 0 whole * 10 ^ 18 + value_from 0 frac * 10 ^ (18 - length frac) ≡ wei

trimmed :
    (whole frac : Bytes)
    → AreDigits whole
    → AreDigits frac
    → trim_end 46 (whole ++ 46 ∷ frac) ≡ joined whole frac
unfolding trim_end
trimmed whole [] hw hf = trim_end-append_cut 46 whole (46 ∷ []) refl ∙ trim_end-AreDigits whole hw
trimmed whole (d ∷ r) hw hf =
    let stays : trim_end 46 (46 ∷ d ∷ r) ≡ 46 ∷ d ∷ r = rw (trim_end-AreDigits (d ∷ r) hf) refl in
    trim_end-append 46 whole (46 ∷ d ∷ r) (λ e. nonempty_cons 46 (d ∷ r) (sym stays ∙ e))
    ∙ ap (λ (l : Bytes). whole ++ l) stays

unless_all-point : (t : Bytes) → unless_all 48 46 t ≡ 46 ∷ t
unless_all-point [] = refl
unless_all-point (x ∷ t) = refl

trim_end-point :
    (whole frac : Bytes) → trim_end 48 (whole ++ 46 ∷ frac) ≡ whole ++ 46 ∷ trim_end 48 frac
unfolding trim_end
trim_end-point whole frac =
    let stays = unless_all-point (trim_end 48 frac) in
    trim_end-append 48 whole (46 ∷ frac) (λ e. nonempty_cons 46 (trim_end 48 frac) (sym stays ∙ e))
    ∙ ap (λ (l : Bytes). whole ++ l) stays

-- Where a number is shown by its decimal digits, `format_ether` is the amount in ether: the digits
-- of the whole part, and behind a point the decimals, at most 18, of which the last is no zero, and
-- no point where there are none.
pub format_ether-IsEther :
    (show : ℕ → Bytes) (wei : ℕ) → IsDecimal show wei → IsEther (format_ether show wei) wei
unfolding format_ether
format_ether-IsEther show wei h =
    let p = IsPointed-digits (show wei) h.digits in
    let (k, split) = trim_end-split 48 p.frac in
    let kept = trim_end 48 p.frac in
    let kept_digits : AreDigits kept =
      AreDigits-front kept (replicate k 48) (subst AreDigits (sym split) p.frac_digits) in
    let count : 18 - length kept ≡ k = omega (
      arith,
      ap (λ (l : Bytes). length l) split,
      length-append kept (replicate k 48),
      length-replicate {A = ℕ} k 48,
      p.places,
    ) in
    record {
      whole = p.whole;
      frac = kept;
      form =
          ap (λ s. trim_end 46 (trim_end 48 s)) p.form
          ∙ ap (trim_end 46) (trim_end-point p.whole p.frac)
          ∙ trimmed p.whole kept p.whole_digits kept_digits;
      whole_digits = p.whole_digits;
      frac_digits = kept_digits;
      nonempty = p.nonempty;
      places = omega (
        arith,
        ap (λ (l : Bytes). length l) split,
        length-append kept (replicate k 48),
        p.places,
      );
      shortest = trim_end-shortest 48 p.frac;
      value = rw count (
          omega (
            arith,
            value_from-append 0 kept (replicate k 48),
            value_from-zeros (value_from 0 kept) k,
            ap (value_from 0) split,
            p.value,
            h.value,
          ));
    }
