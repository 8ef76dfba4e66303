-- ===== src/DeviceMonitor.antt =====
-- devscanclient/lib/devicemonitor.cpp: the announcements that are known, and the calls of the user.
pub mod Announcement
pub mod CommunicationPath
pub mod Table
pub mod State
pub mod Process
pub mod Acceptance
pub mod Notices
pub mod Refusal
pub mod Expiry
pub mod Expirations
pub mod History
pub mod Registry
pub mod Genuine
pub mod Replay
pub mod Tests
