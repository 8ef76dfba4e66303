-- ===== src/Configure.antt =====
-- devscanclient/lib/configureclient.cpp: requests to devices and the answers to them.
pub mod Requests
pub mod Client
mod Answers
mod Documents
mod Tests
