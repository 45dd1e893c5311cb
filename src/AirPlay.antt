-- ===== src/AirPlay.antt =====
pub mod Plist
pub mod PairingStore
pub mod Capabilities
-- The AirPlay side (src/airplay).
pub mod Tlv8
pub mod Rtsp
pub mod ControlCipher
pub mod AccessUnits
