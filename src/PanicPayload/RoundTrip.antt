-- ===== src/PanicPayload/RoundTrip.antt =====
-- The panic payload as a contract writes it, for the reader in durian/src/panic_payload.rs.
use durian.Base.{
  ℕ, ◌/◌, ◌%◌, ◌^◌, ◌<◌, ◌≡◌, true, Option, none, some, [], ◌∷◌, ◌++◌, arith, length, Bytes,
  take-append_self, drop-append_self, length-append,
}
use durian.Crates.{Crates, IsDocumented}
use durian.Utf8.{is_utf8, from_utf8_lossy-IsUtf8}
use durian.PanicPayload.{read_exact, read_u32, read_string, decode}

-- Four bytes, the lowest first.
abbrev pub encode_u32 : ℕ → Bytes
encode_u32 n = n % 256 ∷ n / 256 % 256 ∷ n / 65536 % 256 ∷ n / 16777216 % 256 ∷ []

-- A text behind its length; a missing one is a length of zero.
abbrev pub encode_text : Option Bytes → Bytes
encode_text none = encode_u32 0
encode_text (some t) = encode_u32 (length t) ++ t

-- Texts that the format can carry.
abbrev pub IsText : Option Bytes → Type 0
IsText none = Unit
IsText (some t) = (0 < length t) × (length t < 2 ^ 32) × (is_utf8 t ≡ true)

abbrev pub encode : Option Bytes → Option Bytes → ℕ → ℕ → Bytes
encode msg file line col =
    encode_text msg ++ (encode_text file ++ (encode_u32 line ++ encode_u32 col))

module _ ⦃crates : Crates⦄ (doc : IsDocumented crates) where
  read_u32-encode_u32 :
      (n : ℕ) (rest : Bytes) → n < 2 ^ 32 → read_u32 (encode_u32 n ++ rest) ≡ (some n, rest)
  unfolding read_u32
  read_u32-encode_u32 n rest h =
      ground
        (arith, doc.le_u32_exact (n % 256) (n / 256 % 256) (n / 65536 % 256) (n / 16777216 % 256))

  read_exact-append : (t rest : Bytes) → read_exact (length t) (t ++ rest) ≡ (some t, rest)
  read_exact-append t rest =
      ground (arith, length-append t rest, take-append_self t rest, drop-append_self t rest)

  read_string-encode_text :
      (t : Option Bytes) (rest : Bytes)
      → IsText t
      → read_string (encode_text t ++ rest) ≡ (some t, rest)
  unfolding read_string
  read_string-encode_text none rest h = ground (arith, read_u32-encode_u32 0 rest)
  read_string-encode_text (some t) rest h = ground (
    arith,
    read_u32-encode_u32 (length t) (t ++ rest),
    read_exact-append t rest,
    from_utf8_lossy-IsUtf8 t,
  )

  -- A payload whose texts are well-formed UTF-8 of length 1 to 2^32 - 1, or missing, and whose line
  -- and column fit in 32 bits, is decoded to what was encoded.
  pub decode-encode :
      (msg file : Option Bytes) (line col : ℕ)
      → IsText msg
      → IsText file
      → line < 2 ^ 32
      → col < 2 ^ 32
      → decode (encode msg file line col)
        ≡ record { msg = msg; file = file; line = some line; col = some col }
  unfolding decode
  decode-encode msg file line col hm hf hl hc = ground (
    arith,
    read_string-encode_text msg (encode_text file ++ (encode_u32 line ++ encode_u32 col)),
    read_string-encode_text file (encode_u32 line ++ encode_u32 col),
    read_u32-encode_u32 line (encode_u32 col),
    read_u32-encode_u32 col [],
  )
