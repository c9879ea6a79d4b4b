-- ===== src/Web3.antt =====
-- examples/web3: the Ethereum-like JSON-RPC service over the example blockchain. The HTTP server that
-- jsonrpc-http-server builds and the code that jsonrpc derives from the traits are outside the model,
-- as are types/block_number.rs and types/provenance.rs, which are Parity Ethereum's.
pub mod Ether
pub mod Display
pub mod Hex
pub mod Request
pub mod Helpers
pub mod Contract
pub mod Poison
pub mod Receipt
pub mod Service
pub mod Http
