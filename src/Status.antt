-- ===== src/Status.antt =====
-- src/suites/status: revocation and suspension, and the issuers of the status lists.
pub mod Lists
pub mod Sorting
pub mod Bitstring
pub mod ListIssuer
mod Tests
