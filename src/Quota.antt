-- ===== src/Quota.antt =====
-- The quota store (internal/quota): the records of quotas.yaml, their validation, and the store
-- that reloads the file.
pub mod Config
pub mod Validate
pub mod Store
