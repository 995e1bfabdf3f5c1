-- ===== src/Safety.antt =====
-- The safety layer, src/sqllens/safety, one module for each part.
pub mod MysqlText
pub mod Sqlglot
pub mod Denylist
pub mod Readonly
pub mod Introspect
pub mod Rls
pub mod Limits
pub mod Relations
pub mod Guards
