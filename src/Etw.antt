-- ===== src/Etw.antt =====
-- agent/cg-agent/src/etw/: what the ETW session captures, up to the ring.
pub mod Types
pub mod Ring
pub mod Cache
pub mod Network
pub mod Dispatch
pub mod Hygiene
