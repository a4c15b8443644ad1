-- ===== src/Issues.antt =====
-- The health cockpit, master/src/issues.rs: the snapshot it reads, the issues it derives from each
-- kind of row, and the response. Instants are numbers of seconds, identifiers their texts.
pub mod Health
pub mod Build
pub mod Verdicts
pub mod Certificates
pub mod Response
pub mod Healthy
