-- ===== src/Models.antt =====
-- Package models.
pub mod Version
pub mod Fqdn
pub mod Badge
