-- ===== src/Pop.antt =====
-- Package pop.
pub mod Replay
pub mod Errors
pub mod Jws
pub mod Proof
pub mod Verify
pub mod Caller
pub mod Sign
pub mod Http
