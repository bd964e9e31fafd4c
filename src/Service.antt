-- ===== src/Service.antt =====
-- agent/cg-agent/src/service/: the parts of the Windows service.
pub mod Migration
pub mod Rotation
pub mod Status
pub mod Exit
