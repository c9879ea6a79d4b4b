-- ===== src/Web3/Ether/Pointed.antt =====
-- Where `format_ether` of examples/web3/src/types/transaction_request.rs puts the point.
use durian.Base.{
  ℕ, ◌+◌, ◌-◌, ◌*◌, ◌^◌, ◌≤◌, ◌<◌, ◌≡◌, ◌≢◌, sym, ap, [], ◌∷◌, ◌++◌, length, length-append,
  length-take, length-drop, length-replicate, take, drop, replicate, dec_lt, arith, Bytes,
}
use mathlib.Core.Path.{subst}
use durian.Decimal.{value_from}
use durian.Web3.Ether.{AreDigits, pointed}
use durian.Web3.Ether.Digits.{
  AreDigits-append, AreDigits-take, AreDigits-drop, AreDigits-zeros, value_from-take, behind_zeros,
}

-- Before and behind the point.
pub record IsPointed (string : Bytes) : Type 0 where
  pub whole : Bytes
  pub frac : Bytes
  pub form : pointed string ≡ whole ++ 46 ∷ frac
  pub whole_digits : AreDigits whole
  pub frac_digits : AreDigits frac
  pub nonempty : whole ≢ []
  pub places : length frac ≡ 18
  pub value : value_from 0 whole * 10 ^ 18 + value_from 0 frac ≡ value_from 0 string

IsPointed-short : (s : Bytes) → AreDigits s → length s ≤ 18 → IsPointed s
unfolding pointed
IsPointed-short s h short = record {
  whole = 48 ∷ [];
  frac = replicate (18 - length s) 48 ++ s;
  form = ground arith;
  whole_digits = (omega arith, omega arith, tt);
  frac_digits =
      AreDigits-append (replicate (18 - length s) 48) s (AreDigits-zeros (18 - length s)) h;
  nonempty = λ e. cc;
  places = omega (
    arith,
    length-append (replicate (18 - length s) 48) s,
    length-replicate {A = ℕ} (18 - length s) 48,
  );
  value = omega (arith, behind_zeros (18 - length s) s);
}

places_of : (s : Bytes) → 18 < length s → 18 ≡ length (drop (length s - 18) s)
places_of s long = omega (arith, length-drop (length s - 18) s)

IsPointed-long : (s : Bytes) → AreDigits s → 18 < length s → IsPointed s
unfolding pointed
IsPointed-long s h long = record {
  whole = take (length s - 18) s;
  frac = drop (length s - 18) s;
  form = ground arith;
  whole_digits = AreDigits-take (length s - 18) s h;
  frac_digits = AreDigits-drop (length s - 18) s h;
  nonempty =
      λ e. absurd (omega (arith, length-take (length s - 18) s, ap (λ (l : Bytes). length l) e));
  places = sym (places_of s long);
  value =
      subst
        (λ n.
          value_from 0 (take (length s - 18) s) * 10 ^ n + value_from 0 (drop (length s - 18) s)
          ≡ value_from 0 s)
        (sym (places_of s long)) (value_from-take (length s - 18) s);
}

pub IsPointed-digits : (s : Bytes) → AreDigits s → IsPointed s
IsPointed-digits s h = elim (dec_lt 18 (length s)) [
  | yes long ↦ IsPointed-long s h long
  | no short ↦ IsPointed-short s h (omega arith)
]
