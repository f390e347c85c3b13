-- ===== src/HttpGet.antt =====
-- src/services/http-get-service: the built-in HTTP service and its policy on addresses.
pub mod UrlPolicy
pub mod Builtin
mod Tests
