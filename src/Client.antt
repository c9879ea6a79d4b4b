-- ===== src/Client.antt =====
-- examples/durian-client: the example blockchain as a client of the service.
pub mod Provider
pub mod Chain
pub mod Messages
pub mod Remote
pub mod Session
pub mod Submit
pub mod Faithful
