-- ===== src/Loop.antt =====
-- The event loop of hbm/sys/linux/eventloop.cpp and what runs in it: hbm/sys/linux/timer.cpp and
-- hbm/sys/linux/notifier.cpp.
pub mod System
pub mod EventLoop
pub mod Execute
mod Drain
mod Infos
mod Changes
mod Tracked
mod Dispatch
mod Runs
mod Stopping
pub mod Timer
pub mod Notifier
mod Timing
mod Counting
mod Tests
mod TimingTests
