-- ===== src/Web3/Display.antt =====
-- `fmt::Display` of a request in examples/web3/src/types/transaction_request.rs. The styles of
-- ansi_term and the formats of primitive-types are parameters.
use durian.Base.{ℕ, Option, some, none, ◌++◌, Bytes, codes}
use durian.Types.{Address}
use durian.Web3.Ether.{format_ether}
use durian.Web3.Contract.{or_zero}
use durian.Web3.Request.{TransactionRequest}

pub record DisplayCrates : Type 0 where
  pub show : ℕ → Bytes
  pub show_address : Address → Bytes
  pub paint : Bytes → Bytes

module _ ⦃crates : DisplayCrates⦄ where
  abbrev sender_text : Option Address → Bytes
  sender_text (some from) = codes "0x" ++ crates.show_address from
  sender_text none = codes "?"

  abbrev purpose : Option Address → Bytes
  purpose (some to) = codes " to 0x" ++ crates.show_address to
  purpose none = codes " for contract creation"

  unfoldable pub display : TransactionRequest → Bytes
  unfolding format_ether
  display request =
      crates.paint (format_ether crates.show (or_zero request.value))
      ++ (codes " ETH from " ++ (crates.paint (sender_text request.from) ++ purpose request.to))
