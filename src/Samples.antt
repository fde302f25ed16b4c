-- ===== src/Samples.antt =====
-- Concrete services that the hypotheses are shown to hold of: a database and a keyspace in memory,
-- and the tests that apply each theorem at them.
pub mod Tables
pub mod Database
pub mod Glob
pub mod Keyspace
pub mod Codec
pub mod World
pub mod Accounts
mod Tests
