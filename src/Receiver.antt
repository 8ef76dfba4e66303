-- ===== src/Receiver.antt =====
-- devscanclient/lib/receiver.cpp and hbm/communication/linux/netlink.cpp: datagrams and changes of the
-- host's addresses, handed on.
pub mod Netlink
pub mod Handlers
pub mod Running
pub mod Forwarding
mod Tests
