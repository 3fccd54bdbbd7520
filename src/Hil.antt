-- ===== src/Hil.antt =====
-- hil: the plant that the controller runs against on the test rig.
pub mod Plant
pub mod Site
pub mod ClosedLoop
