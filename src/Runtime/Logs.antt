-- ===== src/Runtime/Logs.antt =====
-- What the function `elog` of durian/src/runtime.rs puts among the log entries, and what it costs.
use durian.Base.{
  ℕ, zero, suc, ◌+◌, ◌*◌, ◌≤◌, ◌≡◌, ◌≢◌, refl, inr, inl, Option, some, List, [], ◌∷◌, ◌++◌, arith,
  ltb, if◌then◌else◌, Bytes, length, Bool-cases,
}
use durian.Error.{Error}
use durian.Exec.{ok, Exec, pure, raise, lift, query, modify, ◌>>=◌, ◌>>◌}
use durian.Exec.Bind.{>>=-ok}
use durian.Types.{H256, LogEntry}
use durian.Schedule.{Schedule}
use durian.Crates.{Crates, Wasmi, RuntimeArgs}
use durian.Runtime.{
  Runtime, memory_get, arg_u32, adjusted_overflow_charge, overflow_charge, charge_amount,
  charge_gas, adjusted_checked,
}
use durian.Runtime.Output.{read_topic, read_topics, topic_offset, push_log, elog, log_price}

module _ {M : Type 0} ⦃wasmi : Wasmi M⦄ where
  -- The topics are the 32 bytes each that follow one another in the memory, from the `i`-th on.
  pub AreTopics : M → ℕ → ℕ → List H256 → Type 0
  AreTopics m topic_ptr i [] = Unit
  AreTopics m topic_ptr i (t ∷ ts) =
      (wasmi.get m (i * 32 + topic_ptr) 32 ≡ inr t)
      × (length t ≡ 32)
      × AreTopics m topic_ptr (i + 1) ts

raise-ne-ok : {S A : Type 0} (e : Error) (s : S) {a : A} → (raise {A = A} e s).0 ≢ ok a
unfolding raise
raise-ne-ok e s = cc

ok-injective : {A : Type 0} {a b : A} → ok a ≡ ok b → a ≡ b
ok-injective e = cc

module _ {P M : Type 0} ⦃crates : Crates⦄ ⦃wasmi : Wasmi M⦄ where
  read_topic_lem :
      (i topic_ptr : ℕ) (s : Runtime P M) {t : H256}
      → (read_topic (topic_offset i topic_ptr) s).0 ≡ ok t
      → ((read_topic (topic_offset i topic_ptr) s).1 ≡ s)
        × (wasmi.get s.memory (i * 32 + topic_ptr) 32 ≡ inr t)
        × (length t ≡ 32)
  unfolding read_topic topic_offset memory_get ◌>>=◌
  read_topic_lem i topic_ptr s e = grind arith

  read_topics_lem :
      (left i topic_ptr : ℕ) (s : Runtime P M) (ts : List H256)
      → (read_topics left i topic_ptr s).0 ≡ ok ts
      → ((read_topics left i topic_ptr s).1 ≡ s)
        × (length ts ≡ left)
        × AreTopics s.memory topic_ptr i ts
  unfolding read_topics AreTopics pure
  read_topics_lem zero i topic_ptr s [] e = (refl, refl, tt)
  read_topics_lem zero i topic_ptr s (t ∷ ts) e = cc
  read_topics_lem (suc left) i topic_ptr s ts e =
      let (t, h, e1, f1) =
        >>=-ok (read_topic (topic_offset i topic_ptr))
          (λ t. read_topics left (i + 1) topic_ptr >>= λ rest. pure (t ∷ rest)) s e in
      let (kept, got, sized) = read_topic_lem i topic_ptr s h in
      let (rest, h2, e2, f2) =
        >>=-ok (read_topics left (i + 1) topic_ptr) (λ rest. pure (t ∷ rest)) s (rw kept at e1) in
      let (kept2, len, more) = read_topics_lem left (i + 1) topic_ptr s rest h2 in
      rw (← (ok-injective e2)) (rw (f1, kept, f2) kept2, omega (arith, len), (got, sized, more))

  overflow_charged :
      (f : Schedule → Option ℕ) (price : ℕ) (s : Runtime P M)
      → adjusted_checked (f s.schedule) s.schedule ≡ ok (some price)
      → (adjusted_overflow_charge f s).0 ≡ ok tt
      → (adjusted_overflow_charge f s).1 ≡ record s { gas_counter = s.gas_counter + price }
  unfolding adjusted_overflow_charge overflow_charge charge_amount charge_gas ◌>>=◌
  overflow_charged f price s h e = ground arith

  memory_get_lem :
      (ptr len : ℕ) (s : Runtime P M) {bytes : Bytes}
      → (memory_get ptr len s).0 ≡ ok bytes
      → wasmi.get s.memory ptr len ≡ inr bytes
  unfolding memory_get query
  memory_get_lem ptr len s e = ground arith

  -- The part of `elog` after its guard.
  abbrev add_entry : ℕ → ℕ → ℕ → ℕ → Exec (Runtime P M) Unit
  add_entry topic_ptr topic_count data_ptr data_len = do
    adjusted_overflow_charge (log_price topic_count)
    topics ← read_topics topic_count 0 topic_ptr
    bytes ← memory_get data_ptr data_len
    modify (push_log topics bytes)

  -- The entry that is put after those there were.
  pub record IsEntry (topic_ptr topic_count data_ptr data_len : ℕ) (s : Runtime P M)
      (entry : LogEntry) : Type 0 where
    pub address : entry.address ≡ s.params.address
    pub count : length entry.topics ≡ topic_count
    pub topics : AreTopics s.memory topic_ptr 0 entry.topics
    pub data_bytes : wasmi.get s.memory data_ptr data_len ≡ inr entry.data_bytes

  add_entry_lem :
      (topic_ptr topic_count data_ptr data_len price : ℕ) (s : Runtime P M)
      → adjusted_checked (log_price topic_count s.schedule) s.schedule ≡ ok (some price)
      → (add_entry topic_ptr topic_count data_ptr data_len s).0 ≡ ok tt
      → (entry : LogEntry) × IsEntry topic_ptr topic_count data_ptr data_len s entry
        × ((add_entry topic_ptr topic_count data_ptr data_len s).1
            ≡ record s { gas_counter = s.gas_counter + price; logs = s.logs ++ entry ∷ [] })
  unfolding modify query
  add_entry_lem topic_ptr topic_count data_ptr data_len price s h e =
      let (_, h1, e1, f1) =
        >>=-ok (adjusted_overflow_charge (log_price topic_count))
          (λ _. read_topics topic_count 0 topic_ptr >>= λ topics.
            memory_get data_ptr data_len >>= λ bytes. modify (push_log topics bytes))
          s e in
      let s1 : Runtime P M = record s { gas_counter = s.gas_counter + price } in
      let charged = overflow_charged (log_price topic_count) price s h h1 in
      let (topics, h2, e2, f2) =
        >>=-ok (read_topics topic_count 0 topic_ptr)
          (λ topics. memory_get data_ptr data_len >>= λ bytes. modify (push_log topics bytes)) s1
          (rw charged at e1) in
      let (kept, len, are) = read_topics_lem topic_count 0 topic_ptr s1 topics h2 in
      let (bytes, h3, e3, f3) =
        >>=-ok (memory_get data_ptr data_len) (λ bytes. modify (push_log topics bytes)) s1
          (rw kept at e2) in
      (
        record { address = s.params.address; topics = topics; data_bytes = bytes },
        record {
          address = refl;
          count = len;
          topics = are;
          data_bytes = memory_get_lem data_ptr data_len s1 h3;
        },
        rw (f1, charged, f2, kept, f3) (unfold memory_get in refl),
      )

  elog-eq-guarded :
      (args : RuntimeArgs) (topic_ptr topic_count data_ptr data_len : ℕ) (s : Runtime P M)
      → wasmi.nth_u32 args 0 ≡ inr topic_ptr
      → wasmi.nth_u32 args 1 ≡ inr topic_count
      → wasmi.nth_u32 args 2 ≡ inr data_ptr
      → wasmi.nth_u32 args 3 ≡ inr data_len
      → elog args s
        ≡ (if ltb 4 topic_count
              then raise Error.log
              else add_entry topic_ptr topic_count data_ptr data_len)
            s
  unfolding elog arg_u32 lift ◌>>=◌
  elog-eq-guarded args topic_ptr topic_count data_ptr data_len s h0 h1 h2 h3 =
      rw (h0, h1, h2, h3) refl

  -- An `elog` that returns was given at most four topics; it has put one entry after those there were,
  -- with the address of the running contract, the topics and the data found at the given places in
  -- the contract's memory; it has charged the price of that many topics, which does not depend on
  -- the length of the data; and nothing else has changed.
  pub elog_lem :
      (args : RuntimeArgs) (topic_ptr topic_count data_ptr data_len price : ℕ) (s : Runtime P M)
      → wasmi.nth_u32 args 0 ≡ inr topic_ptr
      → wasmi.nth_u32 args 1 ≡ inr topic_count
      → wasmi.nth_u32 args 2 ≡ inr data_ptr
      → wasmi.nth_u32 args 3 ≡ inr data_len
      → adjusted_checked (log_price topic_count s.schedule) s.schedule ≡ ok (some price)
      → (elog args s).0 ≡ ok tt
      → (topic_count ≤ 4)
        × (entry : LogEntry) × IsEntry topic_ptr topic_count data_ptr data_len s entry
        × ((elog args s).1
            ≡ record s { gas_counter = s.gas_counter + price; logs = s.logs ++ entry ∷ [] })
  elog_lem args topic_ptr topic_count data_ptr data_len price s h0 h1 h2 h3 hp e =
      let guarded = elog-eq-guarded args topic_ptr topic_count data_ptr data_len s h0 h1 h2 h3 in
      elim (Bool-cases (ltb 4 topic_count)) [
        | inl many ↦ absurd (raise-ne-ok Error.log s (rw (guarded, many) at e))
        | inr few ↦
            let (entry, is_entry, after) =
              add_entry_lem topic_ptr topic_count data_ptr data_len price s hp
                (rw (guarded, few) at e) in
            (ground arith, entry, is_entry, rw (guarded, few) after)
      ]
