-- ===== src/Admission.antt =====
-- Admission (internal/admission): the increase that a request asks for, and the decision on it.
pub mod Delta
pub mod Check
pub mod Locks
pub mod Threads
pub mod Enforcer
