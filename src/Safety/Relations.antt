-- ===== src/Safety/Relations.antt =====
-- src/sqllens/safety/relations.py: the check, on the connection that will run a statement, that it
-- reads base tables only and calls no function of the database.
pub mod Queries
pub mod Rows
pub mod Check
pub mod Verified
pub mod Passed
