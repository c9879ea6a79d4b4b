-- ===== src/Tests.antt =====
-- Concrete instances of what the development takes as parameters, tests of the definitions by
-- evaluation, and each property at a concrete input.
mod Fixtures
mod Parts
mod Machine
mod Remote
mod Sessions
mod Web3
mod Views
mod Quiet
