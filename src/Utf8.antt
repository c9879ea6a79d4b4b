-- ===== src/Utf8.antt =====
-- The standard library's UTF-8 tests that durian/src/panic_payload.rs and runtime.rs call:
-- `String::from_utf8` accepts a byte string that is a sequence of well-formed characters, and
-- `String::from_utf8_lossy` puts U+FFFD for each maximal part that is none.
use durian.Base.{
  ℕ, zero, suc, ◌≡◌, refl, ap, Bool, true, false, [], ◌∷◌, ◌&&◌, arith, leb, if◌then◌else◌, Bytes,
}

abbrev within : ℕ → ℕ → ℕ → Bool
within lo hi b = leb lo b && leb b hi

abbrev next_within : ℕ → ℕ → Bytes → Bool
next_within lo hi [] = false
next_within lo hi (b ∷ _) = within lo hi b

abbrev next : Bytes → Bytes
next [] = []
next (b ∷ r) = r

-- How many bytes belong together behind the first one, and whether they are a whole character.
abbrev Part : Type 0
Part = ℕ × Bool

two : Bytes → Part
two r = if next_within 0x80 0xbf r then (1, true) else (0, false)

three : ℕ → ℕ → Bytes → Part
three lo hi r =
    if next_within lo hi r
    then (if next_within 0x80 0xbf (next r) then (2, true) else (1, false))
    else (0, false)

four : ℕ → ℕ → Bytes → Part
four lo hi r =
    if next_within lo hi r
    then (if next_within 0x80 0xbf (next r)
        then (if next_within 0x80 0xbf (next (next r)) then (3, true) else (2, false))
        else (1, false))
    else (0, false)

unfoldable part : ℕ → Bytes → Part
unfolding two three four
part b r =
    if leb b 0x7f
    then (0, true)
    else if within 0xc2 0xdf b
    then two r
    else if within 0xe0 0xe0 b
    then three 0xa0 0xbf r
    else if within 0xed 0xed b
    then three 0x80 0x9f r
    else if within 0xe1 0xef b
    then three 0x80 0xbf r
    else if within 0xf0 0xf0 b
    then four 0x90 0xbf r
    else if within 0xf1 0xf3 b
    then four 0x80 0xbf r
    else if within 0xf4 0xf4 b
    then four 0x80 0x8f r
    else (0, false)

-- The first argument counts the bytes that still belong to the part before; the second says
-- whether that part was a whole character.
lossy_from : ℕ → Bool → Bytes → Bytes
lossy_from k whole [] = []
lossy_from (suc k) whole (b ∷ r) =
    let rest = lossy_from k whole r in if whole then b ∷ rest else rest
lossy_from zero whole (b ∷ r) =
    let (n, good) = part b r in
    let rest = lossy_from n good r in if good then b ∷ rest else 0xef ∷ 0xbf ∷ 0xbd ∷ rest

valid_from : ℕ → Bytes → Bool
valid_from k [] = true
valid_from (suc k) (b ∷ r) = valid_from k r
valid_from zero (b ∷ r) = let (n, good) = part b r in good && valid_from n r

unfoldable pub from_utf8_lossy : Bytes → Bytes
unfolding lossy_from part
from_utf8_lossy = lossy_from 0 true

unfoldable pub is_utf8 : Bytes → Bool
unfolding valid_from part
is_utf8 = valid_from 0

lossy_from-valid : (k : ℕ) (bs : Bytes) → valid_from k bs ≡ true → lossy_from k true bs ≡ bs
unfolding lossy_from valid_from
lossy_from-valid k [] h = refl
lossy_from-valid (suc k) (b ∷ r) h = ap (λ (t : Bytes). b ∷ t) (lossy_from-valid k r h)
lossy_from-valid zero (b ∷ r) h = ground (arith, lossy_from-valid (part b r).0 r)

-- Text that is well formed comes through the lossy conversion unchanged.
pub from_utf8_lossy-IsUtf8 : (bs : Bytes) → is_utf8 bs ≡ true → from_utf8_lossy bs ≡ bs
unfolding is_utf8 from_utf8_lossy
from_utf8_lossy-IsUtf8 bs h = lossy_from-valid 0 bs h
