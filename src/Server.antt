-- ===== src/Server.antt =====
-- durian-server: the virtual machine as a service over capnp.
pub mod Adaptor
pub mod Executor
pub mod Wait
pub mod Exchange
