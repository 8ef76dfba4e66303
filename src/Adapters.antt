-- ===== src/Adapters.antt =====
-- hbm/communication/netadapter.cpp and netadapterlist.cpp: the network adapters of the host.
pub mod Netadapter
pub mod Hardware
pub mod Enumeration
pub mod Ordered
pub mod Described
pub mod Listing
pub mod Prefix
pub mod Query
pub mod Gateway
mod Tests
