-- ===== src/Web3/Hex.antt =====
-- examples/web3/src/types/bytes.rs: bytes as hexadecimal text in JSON. The newtype `Bytes` is the
-- byte string it wraps. rustc-hex is a parameter, and its error is the text that it is shown as.
use durian.Base.{
  ◌*◌, ◌%◌, ◌≡◌, ◌⊎◌, inl, inr, Bool, ◌++◌, ◌&&◌, ◌==◌, leb, drop, length, if◌then◌else◌, arith,
  Bytes, codes, bytes_eq, take,
}

pub record HexCrates : Type 0 where
  pub to_hex : Bytes → Bytes
  pub from_hex : Bytes → Bytes ⊎ Bytes

pub record IsHexDocumented (c : HexCrates) : Type 0 where
  pub hex_inverse : (b : Bytes) → c.from_hex (c.to_hex b) ≡ inr b
  pub hex_length : (b : Bytes) → length (c.to_hex b) ≡ 2 * length b

module _ ⦃crates : HexCrates⦄ where
  unfoldable pub serialize : Bytes → Bytes
  serialize b = codes "0x" ++ crates.to_hex b

  abbrev starts_with : Bytes → Bytes → Bool
  starts_with prefix value = bytes_eq (take (length prefix) value) prefix

  abbrev invalid_hex : Bytes ⊎ Bytes → Bytes ⊎ Bytes
  invalid_hex (inl e) = inl (codes "Invalid hex: " ++ e)
  invalid_hex (inr b) = inr b

  -- The text of the error, or the bytes.
  unfoldable pub visit_str : Bytes → Bytes ⊎ Bytes
  visit_str value =
      if leb 2 (length value) && (starts_with (codes "0x") value && length value % 2 == 0)
      then invalid_hex (crates.from_hex (drop 2 value))
      else inl (codes "Invalid bytes format. Expected a 0x-prefixed hex string with even length")

  unfoldable pub visit_string : Bytes → Bytes ⊎ Bytes
  unfolding visit_str
  visit_string value = visit_str value

  -- What is written as JSON is read back.
  pub visit_str-serialize : IsHexDocumented crates → (b : Bytes) → visit_str (serialize b) ≡ inr b
  unfolding visit_str serialize
  visit_str-serialize doc b = ground (arith, doc.hex_inverse b, doc.hex_length b)
