-- ===== src/Verify.antt =====
-- Package verify.
pub mod Errors
pub mod Cert
pub mod Outcome
pub mod BadgeCache
pub mod Dane
pub mod UrlValidator
pub mod Config
pub mod ScittKeys
pub mod ScittPath
pub mod Environment
pub mod Server
pub mod Client
pub mod Facade
pub mod BadgeRecord
pub mod Resolver
