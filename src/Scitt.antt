-- ===== src/Scitt.antt =====
-- Package verify/scitt.
pub mod Merkle
pub mod Errors
pub mod RootKeys
pub mod KeyRefresh
pub mod Cose
pub mod Receipt
pub mod Checkpoint
pub mod HttpHeaders
pub mod Supplier
pub mod Cache
pub mod Types
pub mod TokenPayload
pub mod StatusToken
