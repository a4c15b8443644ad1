-- ===== src/Spec.antt =====
-- A node's specification, master/src/spec.rs: the messages, how they are built from the rows, the
-- summary that is kept of an applied one, and the preview of a push.
pub mod Messages
pub mod Build
pub mod Preview
pub mod Changes
pub mod Restarts
pub mod Served
