-- ===== src/Tests.antt =====
-- Each theorem with hypotheses at a concrete input, with small instances of the parameters.
pub mod Data
mod Sql
mod Introspect
mod Turns
mod Calls
mod Agent
mod Profiles
mod Relations
mod Format
