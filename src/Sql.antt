-- ===== src/Sql.antt =====
-- framework/sql: the SQL texts and the values that are bound to their parameters.
pub mod Builder
