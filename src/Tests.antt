-- ===== src/Tests.antt =====
-- Examples: the theorems applied to a small cluster, and runs of the code.
pub mod Fixtures
pub mod Growth
pub mod Threads
pub mod Wiring
pub mod Footprints
pub mod Files
pub mod Requests
pub mod Refusals
pub mod Pages
pub mod Bodies
pub mod Overflow
pub mod Endpoints
pub mod Served
pub mod Resized
