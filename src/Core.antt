-- ===== src/Core.antt =====
-- src/suites/core: the checks on the structure of credentials and presentations. A rule that calls
-- `report` returns the violations that it reports, in order.
pub mod Pointer
pub mod Rules
pub mod Checks
pub mod Structure
pub mod Conforms
pub mod Suite
mod Tests
