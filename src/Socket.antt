-- ===== src/Socket.antt =====
-- hbm/communication/bufferedreader.cpp and hbm/communication/linux/socketnonblocking.cpp: the transfer
-- of bytes over a stream socket.
pub mod Kernel
pub mod BufferedReader
pub mod Conservation
pub mod Receive
pub mod ReceiveTotal
pub mod Send
pub mod SendTotal
pub mod Rest
pub mod RestTotal
pub mod Gather
pub mod Connection
mod Connecting
mod Established
mod Reconnect
pub mod TcpServer
mod Accepting
mod ConnectionTests
mod Tests
