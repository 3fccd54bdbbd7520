-- ===== src/ExtEms.antt =====
-- deploy/ext-ems: the gateway between an external EMS and the controller.
pub mod Gateway
