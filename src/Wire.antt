-- ===== src/Wire.antt =====
-- The messages of durian-server/durian.capnp between a blockchain (the client) and a virtual machine
-- (the server). The code that capnp generates from it is not in the repository: a reader is the
-- results of its getters, each of which can fail, and `Carries` says what capnp documents of a
-- reader of a message that was built by setters. A capnp error with a description is the error
-- `Error.other` with that text, to which the server's adaptor converts it.
use durian.Base.{ℕ, Bool, ◌<◌, ◌^◌, ◌≡◌, Bytes, length}
use durian.Error.{Error}
use durian.Exec.{Outcome, ok, Exec}
use durian.Types.{Address, H256}

-- The conversions of primitive-types, and the texts that capnp and snafu generate. `from_slice` and
-- `from_little_endian` panic on a slice of the wrong length.
pub record WireCrates : Type 0 where
  pub to_little_endian : ℕ → Bytes
  pub from_little_endian : Bytes → Outcome ℕ
  pub address_from_slice : Bytes → Outcome Address
  pub h256_from_slice : Bytes → Outcome H256
  pub show_error : Error → Bytes
  pub unimplemented : Bytes
  pub channel_closed : Bytes

pub record IsWireDocumented (c : WireCrates) : Type 0 where
  pub little_endian_inverse :
      (a : ℕ) → a < 2 ^ 256 → c.from_little_endian (c.to_little_endian a) ≡ ok a
  pub address_exact : (a : Bytes) → length a ≡ 20 → c.address_from_slice a ≡ ok a
  pub h256_exact : (h : Bytes) → length h ≡ 32 → c.h256_from_slice h ≡ ok h

-- The action of a transaction as a builder is given it, and as a reader gives it.
pub data ActionMessage : Type 0 where
  create : Bytes → Bytes → ActionMessage
  call : Bytes → ActionMessage

pub data ActionReader : Type 0 where
  create : Outcome Bytes → Outcome Bytes → ActionReader
  call : Outcome Bytes → ActionReader

pub record TransactionMessage : Type 0 where
  pub sender : Bytes
  pub value : Bytes
  pub gas : Bytes
  pub gas_price : Bytes
  pub action : ActionMessage
  pub args : Bytes

pub record TransactionReader : Type 0 where
  pub get_sender : Outcome Bytes
  pub get_value : Outcome Bytes
  pub get_gas : Outcome Bytes
  pub get_gas_price : Outcome Bytes
  pub get_action : Outcome ActionReader
  pub get_args : Outcome Bytes

-- `ResultData` without its logs, which no side sets or gets.
pub record ResultMessage : Type 0 where
  pub gas_left : Bytes
  pub data_bytes : Bytes
  pub contract : Bytes

pub record ResultReader : Type 0 where
  pub get_gas_left : Outcome Bytes
  pub get_data : Outcome Bytes
  pub get_contract : Outcome Bytes

pub record AccountMessage : Type 0 where
  pub nonce : Bytes
  pub balance : Bytes
  pub code : Bytes

abbrev pub delivered : ActionMessage → ActionReader
delivered (ActionMessage.create code salt) = ActionReader.create (ok code) (ok salt)
delivered (ActionMessage.call address) = ActionReader.call (ok address)

-- A reader of the message: what was set is what is got.
pub record Carries (r : TransactionReader) (m : TransactionMessage) : Type 0 where
  pub sender : r.get_sender ≡ ok m.sender
  pub value : r.get_value ≡ ok m.value
  pub gas : r.get_gas ≡ ok m.gas
  pub gas_price : r.get_gas_price ≡ ok m.gas_price
  pub action : r.get_action ≡ ok (delivered m.action)
  pub args : r.get_args ≡ ok m.args

pub record CarriesResult (r : ResultReader) (m : ResultMessage) : Type 0 where
  pub gas_left : r.get_gas_left ≡ ok m.gas_left
  pub data_bytes : r.get_data ≡ ok m.data_bytes
  pub contract : r.get_contract ≡ ok m.contract

-- The provider at the other end of the connection, whose state is `S`: what a request for its
-- methods, with the bytes that were set in it, brings back. A panic there ends the exchange.
pub record ProviderClient (S : Type 0) : Type 0 where
  pub exist : Bytes → S → Outcome Bool
  pub account : Bytes → S → Outcome AccountMessage
  pub update_account : Bytes → Bytes → Bytes → Exec S Unit
  pub create_contract : Bytes → Bytes → Exec S Unit
  pub storage_at : Bytes → Bytes → S → Outcome Bytes
  pub set_storage : Bytes → Bytes → Bytes → Exec S Unit

-- How the messages of the executor's `execute` travel.
pub record Connection : Type 0 where
  pub deliver : TransactionMessage → TransactionReader
  pub deliver_result : ResultMessage → ResultReader

pub record IsReliable (c : Connection) : Type 0 where
  pub carries : (m : TransactionMessage) → Carries (c.deliver m) m
  pub carries_result : (m : ResultMessage) → CarriesResult (c.deliver_result m) m
