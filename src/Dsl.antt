-- ===== src/Dsl.antt =====
-- framework/dsl: the document's shape, the error contract and the registry of resolved operations.
pub mod Errors
pub mod Schema
pub mod Value
pub mod Placeholder
pub mod Registry
pub mod Loader
