-- ===== src/Admission/Enforcer.antt =====
-- internal/admission/admission.go: the middleware, from the request to the answer, for one request at
-- a time. The cluster behind the proxy is a parameter.
pub mod Decide
pub mod Handle
pub mod Exposed
