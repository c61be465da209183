-- ===== src/UnitTests.antt =====
-- The unit tests of the repository, run on the model: each is a definition that does what the test does,
-- and is compared with what the test expects.
mod Blocks
mod Builders
mod Handovers
mod Headers
mod Heads
mod Monitors
mod Slots
mod Utilities
