-- ===== src/OpenBadges.antt =====
-- src/openbadges: the four semantic checks on Open Badges. None of them is fatal.
pub mod Shapes
pub mod Checks
mod Suite
mod Described
mod Failures
mod Tests
