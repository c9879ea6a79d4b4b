-- ===== src/Lib.antt =====
-- A model of durian, a virtual machine for WebAssembly smart contracts that works on a blockchain behind
-- a trait, with the theorems that make it correct.
--
-- A transaction comes to `execute` (durian/src/execute.rs), which takes the contract's code from the
-- transaction or from the blockchain (`Provider`), meters it (durian/src/parser.rs), resolves its imports
-- (durian/src/env.rs), and runs it in an interpreter. The contract calls back into the `Runtime`
-- (durian/src/runtime.rs), which charges gas, reads and writes the contract's memory, and works on a
-- cache of accounts and storage slots (durian/src/state.rs). At the end the changed entries of the cache
-- go to the blockchain. examples/blockchain is a blockchain in memory that implements `Provider`.
--
-- durian-server offers `execute` over a capnp connection: a transaction comes in with a provider, which
-- the server calls back through `ProviderAdaptor` (durian-server/src/provider_adaptor.rs) while a spawned
-- task executes the transaction (executor_impl.rs). examples/durian-client is a client with the example
-- blockchain as its provider, examples/cli runs the same session without a connection, and examples/web3
-- serves the blockchain by JSON-RPC.
--
-- Files:
--   Base: Boolean tests on numbers, lists, byte strings, and the lemmas that all parts share.
--   Exec: outcomes (`ok`, `err`, and `panicked` for a Rust panic) and computations on a state. What a
--     computation wrote before an error stays written, as with `&mut self` and `?`. Exec/Steps has the
--     rules by which a relation between the states before and after is shown for a whole computation,
--     Exec/Same and Exec/Related those by which two computations are shown to go alike: on one kind of
--     state under an invariant, and on two kinds under a relation.
--   HashMap: `std::collections::HashMap` as an association list.
--   Error: durian/src/error.rs. Types: types.rs, address.rs and log_entry.rs. Provider: provider.rs.
--   State: state.rs; State/View has the abstract view of the cache, State/ReadOnly its methods and the
--     blockchain, State/Commit the write-back, State/Coherent the agreement of cache and blockchain.
--     Provider/Store is the interface between the two: the laws of storage that the cache relies on,
--     which Blockchain/Store fills for the example blockchain. Provider/Twins says when two providers on
--     one blockchain cannot be told apart, but for what they say of the block (`AsksBlock`) and their
--     updates of accounts (`Updates`), where a contract uses neither. State/Twins follows the cache,
--     with the lengths of State/Sized, over both; State/View/Same says
--     when two states, whatever their providers and caches, show the same.
--   WasmCost, Schedule: the prices, wasm_cost.rs and schedule.rs.
--   Env: env.rs, with the function numbers (Ids), signatures (Signatures) and imports (Imports).
--   Utf8: the lossy conversion of the standard library. PanicPayload: panic_payload.rs, which uses it.
--   Decimal: numbers in texts. Utils: utils.rs. Transaction: transaction.rs. Parser: parser.rs.
--   Runtime: the state, the gas meter and the accesses to memory of runtime.rs; its host functions stand in
--     Runtime/Storage, Runtime/Output, Runtime/Calls and Runtime/Queries, `invoke_index` in
--     Runtime/Dispatch. Runtime/Guard has the relation between the states before and
--     after a host function, Runtime/Twins its runs over two providers and Runtime/View on two states that
--     show the same. Runtime/Handled ties the names of env.rs to the host functions; Runtime/Slots, Logs
--     and Gas are about single functions.
--   Interpreter: what the runtime sees of a running contract; Interpreter/Metered has what the injected
--     metering is for. Execute: execute.rs, with theorems on its
--     writes (Writes, Committed), its gas (Gas) and its ends (Traps).
--     Execute/Preserved lifts what the writes of a provider preserve to whole transactions, Execute/Twins
--     the comparison of two providers, and Execute/View that of two states.
--   Blockchain: examples/blockchain. Blockchain/Storage and Store are about its slots, Blocks about the
--     chain of blocks, Records and Growth about what operations do to the blocks and the transactions,
--     Reinstall about code that is installed at a known address.
--   Wire: the messages of durian-server/durian.capnp. Server/Adaptor: provider_adaptor.rs. Server/Executor:
--     executor_impl.rs. Server/Wait: the task and the loop that waits for it, as a machine that a schedule
--     of turns drives. Server/Exchange: transactions and results on their way.
--   Client/Messages and Client/Session: examples/durian-client/src/main.rs. Client/Provider:
--     provider_impl.rs. Client/Remote: the adaptor over that provider. Client/Submit: a transaction there
--     and back. Client/Faithful: the same transaction on the blockchain itself. Client/Chain: the blocks
--     that a session leaves.
--   Cli: examples/cli/src/main.rs, as a session on a blockchain with the code and the clock as arguments.
--   Web3: examples/web3. Web3/Contract: contract_call.rs. Web3/Service: impls/transaction.rs, the methods
--     behind the mutex that a panic poisons; Web3/Poison and Web3/Receipt are about their sequences.
--     Web3/Hex: types/bytes.rs. Web3/Request, Helpers and Display: the requests, their conversions and
--     their text. Web3/Http: rpc.rs, rpc_apis.rs, rpc_service.rs, extractors.rs, http_common.rs and
--     metadata.rs. Web3/Ether: `format_ether`, with its lemmas in Ether/Trim, Digits, Pointed and Amount.
--   Tests: parameters for a concrete machine, tests, and the theorems applied to concrete inputs.
--
-- Numbers are natural numbers; an operation on u32 or u64 that can wrap says so with `%`, a checked one
-- returns an option, and U256 arithmetic is a parameter (`Crates`) whose documented behaviour, panics on
-- overflow included, is `IsDocumented`. Hashes and addresses are byte strings. Loops are structural
-- recursion; the two bounds are ten decimal digits for a 32-bit number, which is enough, and 16 pages of
-- memory, which is the source's own limit.
--
-- Code outside the repository is a parameter: the interpreter wasmi (`Wasmi` for memory and
-- arguments, with `FillsBuffers` as its documented part, `Interpreter` for modules), parity-wasm and
-- pwasm-utils (`WasmTools`), primitive-types, tiny-keccak, sha3 and bincode, the code that capnp
-- generates (`WireCrates`, with its documented part in `IsWireDocumented` and a `Connection` that may
-- be `IsReliable`), rustc-hex, ansi_term, and the HTTP server with its headers and addresses
-- (`HttpCrates`). A contract is any finite tree of reads and writes of its memory, host calls and a
-- result: the injected gas meter makes runs finite, and what a contract computes is not the machine's
-- business. Tracing has no effect on the state and is left out, except where a function does it in
-- place of its work. A panic at the client's end of a connection ends the exchange, and a capnp error
-- is `Error.other` with its text. Of the standard library's mutex, poisoning is modelled for web3
-- only, where calls follow one another; the mutex of the durian-client is held for one call each and
-- is left out.
--
-- Not modelled: sockets, the event loops of the programs, code generation and the reading of the
-- contract's file (I/O); the start of the HTTP server behind the builder of jsonrpc-http-server; web3's
-- types/block_number.rs and types/provenance.rs, which are Parity Ethereum's; the glue that serde calls;
-- and the commented-out host functions.
pub mod Base
pub mod Error
pub mod Exec
pub mod HashMap
pub mod Types
pub mod Provider
pub mod State
pub mod WasmCost
pub mod Schedule
pub mod Crates
pub mod Env
pub mod PanicPayload
pub mod Utf8
pub mod Decimal
pub mod Blockchain
pub mod Runtime
pub mod Transaction
pub mod Utils
pub mod Parser
pub mod Interpreter
pub mod Execute
pub mod Wire
pub mod Server
pub mod Client
pub mod Cli
pub mod Web3
pub mod Tests
