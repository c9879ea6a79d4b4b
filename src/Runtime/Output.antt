-- ===== src/Runtime/Output.antt =====
-- What a contract hands out, in durian/src/runtime.rs: its result, its panic, its log entries, its
-- debug messages, and the metering call that the gas injector puts into its code.
use durian.Base.{
  ℕ, zero, suc, ◌+◌, ◌*◌, ◌%◌, ◌^◌, Option, none, some, List, [], ◌∷◌, ◌++◌, ltb, ◌==◌,
  if◌then◌else◌, Bytes, codes, length,
}
use durian.Error.{Error}
use durian.Exec.{Outcome, ok, panicked, Exec, pure, raise, lift, modify, ◌>>=◌, ◌>>◌}
use durian.Types.{H256}
use durian.Schedule.{Schedule}
use durian.Crates.{Crates, Wasmi, RuntimeArgs}
use durian.PanicPayload.{PanicPayload, decode}
use durian.Utf8.{is_utf8}
use durian.Decimal.{decimal}
use durian.Runtime.{
  Runtime, u64_mod, checked_u64, charge_gas, adjusted_overflow_charge, arg_u32, memory_get,
}

abbrev or_text : Option Bytes → Bytes → Bytes
or_text none d = d
or_text (some t) d = t

abbrev or_zero : Option ℕ → ℕ
or_zero none = 0
or_zero (some n) = n

-- The `format!` of `panic`.
unfoldable pub panic_message : PanicPayload → Bytes
panic_message payload =
    or_text payload.msg (codes "<msg was stripped>")
    ++ (codes ", "
        ++ (or_text payload.file (codes "<unknown>")
            ++ (codes ":"
                ++ (decimal (or_zero payload.line)
                    ++ (codes ":" ++ decimal (or_zero payload.col))))))

-- The price of a log entry; as in the source, the per-byte price is squared and the length of the
-- data does not enter.
unfoldable pub log_price : ℕ → Schedule → Option ℕ
log_price topic_count schedule =
    elim (checked_u64 (schedule.log_data_gas * schedule.log_data_gas)) [
      | none ↦ none
      | some data_gas ↦
          checked_u64 (
            data_gas
            + (schedule.log_gas + schedule.log_topic_gas * topic_count % u64_mod) % u64_mod)
    ]

-- `i.checked_mul(32)` and `.checked_add(topic_ptr)`, both on `u32`.
unfoldable pub topic_offset : ℕ → ℕ → Option ℕ
topic_offset i topic_ptr =
    if ltb (i * 32) (2 ^ 32)
    then (if ltb (i * 32 + topic_ptr) (2 ^ 32) then some (i * 32 + topic_ptr) else none)
    else none

-- `H256::from_slice` panics on a slice of another length.
abbrev pub h256_from_slice : Bytes → Outcome H256
h256_from_slice bytes = if length bytes == 32 then ok bytes else panicked

module _ {P M : Type 0} where
  abbrev pub push_log : List H256 → Bytes → Runtime P M → Runtime P M
  push_log topics bytes s = record s {
    logs =
        s.logs ++ record { address = s.params.address; topics = topics; data_bytes = bytes } ∷ [];
  }

module _ {P M : Type 0} ⦃crates : Crates⦄ ⦃wasmi : Wasmi M⦄ where
  unfoldable pub ret : RuntimeArgs → Exec (Runtime P M) Unit
  ret args = do
    ptr ← arg_u32 args 0
    len ← arg_u32 args 1
    bytes ← memory_get ptr len
    modify (λ s. record s { result = bytes })
    raise Error.return

  unfoldable pub gas : RuntimeArgs → Exec (Runtime P M) Unit
  gas args = do
    amount ← arg_u32 args 0
    allowed ← charge_gas amount
    if allowed then pure tt else raise Error.gas_limit

  unfoldable pub panic : RuntimeArgs → Exec (Runtime P M) Unit
  panic args = do
    payload_ptr ← arg_u32 args 0
    payload_len ← arg_u32 args 1
    raw_payload ← memory_get payload_ptr payload_len
    raise (Error.panic (panic_message (decode raw_payload)))

  -- The message is read and tested only where the `trace!` macro evaluates its arguments.
  unfoldable pub debug : RuntimeArgs → Exec (Runtime P M) Unit
  debug args =
      if crates.trace_enabled
      then (do
        msg_ptr ← arg_u32 args 0
        msg_len ← arg_u32 args 1
        msg ← memory_get msg_ptr msg_len
        if is_utf8 msg then pure tt else raise Error.bad_utf8)
      else pure tt

  unfoldable pub read_topic : Option ℕ → Exec (Runtime P M) H256
  read_topic none = raise Error.memory_access_violation
  read_topic (some offset) = do bytes ← memory_get offset 32; lift (h256_from_slice bytes)

  -- The loop over the topics: how many are left, the index of the next one, and where they start.
  unfoldable pub read_topics : ℕ → ℕ → ℕ → Exec (Runtime P M) (List H256)
  unfolding read_topic
  read_topics zero i topic_ptr = pure []
  read_topics (suc left) i topic_ptr = do
    topic ← read_topic (topic_offset i topic_ptr)
    rest ← read_topics left (i + 1) topic_ptr
    pure (topic ∷ rest)

  unfoldable pub elog : RuntimeArgs → Exec (Runtime P M) Unit
  elog args = do
    topic_ptr ← arg_u32 args 0
    topic_count ← arg_u32 args 1
    data_ptr ← arg_u32 args 2
    data_len ← arg_u32 args 3
    if ltb 4 topic_count then raise Error.log else do
      adjusted_overflow_charge (log_price topic_count)
      topics ← read_topics topic_count 0 topic_ptr
      bytes ← memory_get data_ptr data_len
      modify (push_log topics bytes)
