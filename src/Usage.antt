-- ===== src/Usage.antt =====
-- Accounting (internal/usage): disks and sizes in guest configs, the resources of a guest, and the
-- engine that sums the guests of a pool.
pub mod Disk
pub mod Guest
pub mod Engine
