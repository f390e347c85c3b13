-- ===== src/RegistryHandlers.antt =====
-- src/services/registry-handlers: how one registry of each type is asked for an issuer.
pub mod CacheTtl
pub mod Answer
pub mod DccLegacy
pub mod VcRecognition
pub mod Jws
pub mod Oidf
mod Tests
