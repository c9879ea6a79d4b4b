-- ===== src/Client/Faithful.antt =====
-- A transaction that durian-server/src/executor_impl.rs runs over the connection to
-- examples/durian-client, against the same transaction run on the blockchain itself.
use durian.Base.{true, ◌≡◌, ◌≢◌, refl, length, ◌∙◌, arith, Bytes}
use durian.Error.{Error}
use durian.Exec.{ok, err, raise, ◌>>=◌}
use durian.Types.{Address, H256, zero_hash, ActionParams}
use durian.Crates.{Crates, IsDocumented, Wasmi, FillsBuffers}
use durian.Parser.{WasmTools}
use durian.Interpreter.{Interpreter}
use durian.Transaction.{Transaction, Action}
use durian.Provider.{Provider}
use durian.Provider.Twins.{AreTwins}
use durian.Execute.{action_params, is_create, execute}
use durian.Execute.Twins.{execute_agrees, MayLoad}
use durian.Interpreter.Twins.{MayRun-any}
use durian.Wire.{WireCrates, IsWireDocumented, Connection, IsReliable}
use durian.Server.Adaptor
use durian.Server.Adaptor.{adaptor}
use durian.Server.Executor.{run_task}
use durian.Server.Exchange.{IsTransaction, length-contract_of}
use durian.Blockchain
use durian.Blockchain.{Blockchain, ChainCrates, change_unwrapped, chain_provider}
use durian.Client.Provider.{refused, relayed, provider_impl, update_account}
use durian.Client.Remote.{
  if_ok-refused, AreSized, exist-remote, account-remote, storage_at-remote, set_storage-remote,
  create_contract-remote,
}
use durian.Client.Session.{submit}
use durian.Client.Submit.{received, submit-run_task}

module _ ⦃crates : WireCrates⦄ where
  -- The blockchain itself, with what the server cannot see of it left out: errors are texts, the block
  -- data are constants, and accounts are not updated.
  abbrev pub on_chain : Provider Blockchain
  on_chain = record {
    exist = Blockchain.exist;
    account = λ a bc. refused (Blockchain.provider_account a bc);
    update_account = λ a balance nonce. raise (Error.other crates.unimplemented);
    create_contract = Blockchain.create_contract;
    storage_at = λ a k bc. refused (Blockchain.storage_at a k bc);
    set_storage = Blockchain.set_storage;
    timestamp = λ bc. 0;
    block_number = λ bc. 0;
    block_hash = λ num bc. ok zero_hash;
    block_author = λ bc. err Error.not_supported;
    difficulty = λ bc. err Error.not_supported;
    gas_limit = λ bc. ok 0;
  }

  relayed-set_storage :
      (a : Address) (k v : H256) (bc : Blockchain)
      → relayed (Blockchain.set_storage a k v) bc ≡ Blockchain.set_storage a k v bc
  unfolding relayed Blockchain.set_storage change_unwrapped ◌>>=◌
  relayed-set_storage a k v bc = ground arith

  relayed-create_contract :
      (a : Address) (code : Bytes) (bc : Blockchain)
      → relayed (Blockchain.create_contract a code) bc ≡ Blockchain.create_contract a code bc
  unfolding relayed Blockchain.create_contract
  relayed-create_contract a code bc = ground arith

  -- By addresses, keys and values of their lengths, the server's provider over the connection cannot
  -- be told from the blockchain.
  adaptor-on_chain :
      IsWireDocumented crates
      → AreTwins (adaptor ⦃client = provider_impl⦄) on_chain AreSized Unit Unit
  unfolding Adaptor.update_account update_account
  adaptor-on_chain doc = record {
    exist = λ a bc ha. exist-remote doc a bc ha;
    account = λ a bc sized ha. rw (account-remote doc a bc ha sized) refl;
    storage_at = λ a k bc sized ha hk. rw (storage_at-remote doc a k bc ha hk sized) refl;
    set_storage = λ a k v bc ha hk hv.
        set_storage-remote doc a k v bc ha hk hv ∙ relayed-set_storage a k v bc;
    update_account = λ _ a balance nonce bc ha. refl;
    create_contract =
        λ a code bc ha. create_contract-remote doc a code bc ha ∙ relayed-create_contract a code bc;
    block_number = λ _ bc. refl;
    block_hash = λ _ n bc. refl;
    block_author = λ _ bc. refl;
    difficulty = λ _ bc. refl;
    gas_limit = λ _ bc. refl;
  }

module _ ⦃chain_crates : ChainCrates⦄ ⦃crates : WireCrates⦄ where
  -- Nor from the blockchain as the provider of its own machine, but by its block data and by updates of
  -- accounts.
  adaptor-chain_provider :
      IsWireDocumented crates
      → AreTwins (adaptor ⦃client = provider_impl⦄) chain_provider AreSized ⊥ ⊥
  adaptor-chain_provider doc = record {
    exist = λ a bc ha. exist-remote doc a bc ha;
    account = λ a bc sized ha.
        rw (account-remote doc a bc ha sized) (if_ok-refused (Blockchain.provider_account a bc));
    storage_at = λ a k bc sized ha hk.
        rw (storage_at-remote doc a k bc ha hk sized)
          (if_ok-refused (Blockchain.storage_at a k bc));
    set_storage = λ a k v bc ha hk hv.
        set_storage-remote doc a k v bc ha hk hv ∙ relayed-set_storage a k v bc;
    update_account = λ none_may. absurd none_may;
    create_contract =
        λ a code bc ha. create_contract-remote doc a code bc ha ∙ relayed-create_contract a code bc;
    block_number = λ none_may. absurd none_may;
    block_hash = λ none_may. absurd none_may;
    block_author = λ none_may. absurd none_may;
    difficulty = λ none_may. absurd none_may;
    gas_limit = λ none_may. absurd none_may;
  }

-- The parameters of a call are the same where its account is.
action_params_alike :
    {P : Type 0} (api twin : Provider P) ⦃crates : Crates⦄ (tx : Transaction) (action : Action)
    (p : P)
    → ((a : Address) → action ≡ Action.call a → api.account a p ≡ twin.account a p)
    → action_params ⦃api = api⦄ tx action p ≡ action_params ⦃api = twin⦄ tx action p
unfolding action_params
action_params_alike api twin tx (Action.create code salt) p h = refl
action_params_alike api twin tx (Action.call a) p h = rw (h a refl) refl

address_sized :
    (tx : Transaction) (a : Address) → IsTransaction tx → tx.action ≡ Action.call a → length a ≡ 20
address_sized tx a h e = rw e at h.action

call-ne-create :
    (tx : Transaction) (a : Address) → tx.action ≡ Action.call a → is_create tx.action ≢ true
unfolding is_create
call-ne-create tx a h e = cc

same_call :
    (tx : Transaction) (a b : Address) (Holds : Address → Type 0)
    → tx.action ≡ Action.call a
    → tx.action ≡ Action.call b
    → Holds a
    → Holds b
same_call tx a b Holds ha hb h = let e : a ≡ b = cc in rw e at h

refused-known :
    ⦃crates : WireCrates⦄ (a : Address) (bc : Blockchain)
    → Blockchain.exist a bc ≡ true
    → refused (Blockchain.provider_account a bc) ≡ Blockchain.provider_account a bc
unfolding Blockchain.exist Blockchain.provider_account
refused-known a bc h = ground arith

module _ (Code Loaded M : Type 0) ⦃wire : WireCrates⦄ ⦃crates : Crates⦄ ⦃wasmi : Wasmi M⦄
    ⦃tools : WasmTools Code⦄ ⦃interpreter : Interpreter Code Loaded M⦄ (fills : FillsBuffers wasmi)
    (doc : IsDocumented crates) (wire_doc : IsWireDocumented wire) where
  run_task-execute :
      (tx : Transaction) (bc : Blockchain)
      → IsTransaction tx
      → AreSized bc
      → run_task Code Loaded M ⦃client = provider_impl⦄ tx bc
        ≡ execute Code Loaded M ⦃api = on_chain⦄ tx bc
  unfolding run_task action_params
  run_task-execute tx bc h sized =
      execute_agrees Code Loaded M (adaptor ⦃client = provider_impl⦄) on_chain
        (adaptor-on_chain wire_doc) fills tx bc (λ e. tt)
        (length-contract_of doc tx tx.action h.action)
        (action_params_alike (adaptor ⦃client = provider_impl⦄) on_chain tx tx.action bc
          (λ a e. account-remote wire_doc a bc (address_sized tx a h e) sized))
        (λ params e costs loaded l. (MayRun-any _, MayRun-any _)) sized

  -- Over a reliable connection, a well-formed transaction on a blockchain whose accounts are in range
  -- gives its client what `execute` gives on the blockchain itself, an error or a panic of it
  -- apart, of which the client learns no more than that it happened; and it leaves the blockchain
  -- as `execute` does.
  pub submit-execute :
      (connection : Connection) (tx : Transaction) (bc : Blockchain)
      → IsReliable connection
      → IsTransaction tx
      → AreSized bc
      → submit Code Loaded M connection tx bc ≡ (
        received (execute Code Loaded M ⦃api = on_chain⦄ tx bc).0,
        (execute Code Loaded M ⦃api = on_chain⦄ tx bc).1,
      )
  submit-execute connection tx bc reliable h sized =
      rw (← run_task-execute tx bc h sized)
        (submit-run_task Code Loaded M connection doc wire_doc reliable tx bc h)

module _ (Code Loaded M : Type 0) ⦃chain_crates : ChainCrates⦄ ⦃wire : WireCrates⦄ ⦃crates : Crates⦄
    ⦃wasmi : Wasmi M⦄ ⦃tools : WasmTools Code⦄ ⦃interpreter : Interpreter Code Loaded M⦄
    (fills : FillsBuffers wasmi) (doc : IsDocumented crates)
    (wire_doc : IsWireDocumented wire) where
  -- Over a reliable connection, a well-formed call of a contract that the blockchain knows and that
  -- does not ask for the block gives its client what `execute` gives over the blockchain itself, an
  -- error or a panic of it apart, of which the client learns no more than that it happened; and it
  -- leaves the blockchain as `execute` does.
  pub submit-execute_call :
      (connection : Connection) (tx : Transaction) (bc : Blockchain) (a : Address)
      → IsReliable connection
      → IsTransaction tx
      → AreSized bc
      → tx.action ≡ Action.call a
      → Blockchain.exist a bc ≡ true
      → ((params : ActionParams)
          → action_params ⦃api = chain_provider⦄ tx tx.action bc ≡ ok params
          → MayLoad Code Loaded M ⊥ params)
      → submit Code Loaded M connection tx bc ≡ (
        received (execute Code Loaded M ⦃api = chain_provider⦄ tx bc).0,
        (execute Code Loaded M ⦃api = chain_provider⦄ tx bc).1,
      )
  unfolding run_task
  submit-execute_call connection tx bc a reliable h sized call known quiet =
      let same_account : (b : Address)
          → tx.action ≡ Action.call b
          → Adaptor.account ⦃client = provider_impl⦄ b bc ≡ Blockchain.provider_account b bc =
        λ b e.
          account-remote wire_doc b bc (address_sized tx b h e) sized
          ∙ refused-known b bc
              (same_call tx a b (λ c. Blockchain.exist c bc ≡ true) call e known) in
      rw
        (← execute_agrees Code Loaded M (adaptor ⦃client = provider_impl⦄) chain_provider
          (adaptor-chain_provider wire_doc) fills tx bc (λ e. absurd (call-ne-create tx a call e))
          (length-contract_of doc tx tx.action h.action)
          (action_params_alike (adaptor ⦃client = provider_impl⦄) chain_provider tx tx.action bc
            same_account)
          quiet sized)
        (submit-run_task Code Loaded M connection doc wire_doc reliable tx bc h)
