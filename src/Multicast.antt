-- ===== src/Multicast.antt =====
-- hbm/communication/multicastserver.cpp: datagrams sent to and received from a multicast group.
pub mod Network
pub mod Membership
pub mod Sending
pub mod Receiving
pub mod Outcome
pub mod Sent
pub mod Opening
pub mod Tests
