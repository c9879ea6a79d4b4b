-- ===== src/PanicPayload.antt =====
-- durian/src/panic_payload.rs: what a contract hands over when it panics. The cursor is the bytes
-- not yet read; a read that finds too few of them fails and leaves the cursor where it is.
pub mod RoundTrip
use durian.Base.{ℕ, Option, none, some, take, drop, length, leb, if◌then◌else◌, ◌==◌, Bytes}
use durian.Crates.{Crates}
use durian.Utf8.{from_utf8_lossy}

pub record PanicPayload : Type 0 where
  pub msg : Option Bytes
  pub file : Option Bytes
  pub line : Option ℕ
  pub col : Option ℕ

-- `Read::read_exact` of `n` bytes.
abbrev pub read_exact : ℕ → Bytes → Option Bytes × Bytes
read_exact n rdr = if leb n (length rdr) then (some (take n rdr), drop n rdr) else (none, rdr)

module _ ⦃crates : Crates⦄ where
  -- `rdr.read_u32::<LittleEndian>()`
  unfoldable pub read_u32 : Bytes → Option ℕ × Bytes
  read_u32 rdr =
      let (raw, rest) = read_exact 4 rdr in
      elim raw [ none ↦ (none, rest) | some bs ↦ (some (crates.le_u32 bs), rest) ]

  -- The outer `Option` is the `io::Result`.
  read_content : ℕ → Bytes → Option (Option Bytes) × Bytes
  read_content string_len rdr =
      let (raw, rest) = read_exact string_len rdr in
      elim raw [
        | none ↦ (none, rest)
        | some content ↦ (some (some (from_utf8_lossy content)), rest)
      ]

  unfoldable pub read_string : Bytes → Option (Option Bytes) × Bytes
  unfolding read_u32 read_content
  read_string rdr =
      let (string_len, rest) = read_u32 rdr in
      elim string_len [
        | none ↦ (none, rest)
        | some n ↦ if n == 0 then (some none, rest) else read_content n rest
      ]

  -- `.ok().and_then(|x| x)`
  abbrev flat : Option (Option Bytes) → Option Bytes
  flat none = none
  flat (some o) = o

  unfoldable pub decode : Bytes → PanicPayload
  unfolding read_string
  decode raw =
      let (msg, r1) = read_string raw in
      let (file, r2) = read_string r1 in
      let (line, r3) = read_u32 r2 in
      let (col, r4) = read_u32 r3 in
      record { msg = flat msg; file = flat file; line = line; col = col }
