-- ===== src/Iap2/Link.antt =====
-- The phone's end of the iAP2 link (class PhoneLink, src/iap2/link_layer.cpp).
pub mod State
pub mod Output
pub mod Input
pub mod Keeps
pub mod Termination
pub mod Steps
pub mod Window
pub mod Lifecycle
pub mod Handshake
pub mod Retransmission
pub mod Delivery
pub mod Framing
pub mod Acknowledge
mod Tests
