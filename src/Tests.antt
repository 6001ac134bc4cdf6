-- ===== src/Tests.antt =====
-- The theorems at concrete inputs, and runs of the definitions.
mod Merkle
mod Cache
mod Replay
mod Models
mod Fixtures
mod Verify
mod Pop
mod Caller
mod Sign
mod Http
mod Resolver
mod StatusToken
mod ScittFixtures
mod Scitt
