-- ===== src/Dsl/Loader.antt =====
-- framework/dsl/loader.py: the checks of a document that has been read, and the resolution of its
-- operations.
pub mod Checks
pub mod Accepted
pub mod Operations
pub mod Tokens
pub mod Where
pub mod Resolve
pub mod Load
pub mod Raises
