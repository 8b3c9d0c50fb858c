-- ===== src/Examples.antt =====
-- The hypotheses of the theorems at concrete inputs, with concrete libraries.
mod Ttl
mod Ascii
mod Sql
mod Services
mod Process
mod Server
mod Memory
mod Redis
mod Coherence
mod Documents
