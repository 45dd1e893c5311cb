-- ===== src/Iap2.antt =====
-- The iAP2 side of the bridge (src/iap2): frames, the phone's end of the link, and control-session
-- messages.
pub mod Frame
pub mod Link
pub mod Csm
pub mod Bootstrap
pub mod Probe
