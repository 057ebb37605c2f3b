-- ===== src/Net/Linux.antt =====
-- A server on Linux, over epoll.
pub mod Epoll
pub mod Serve
pub mod Events
pub mod Watched
pub mod Polls
pub mod Accepts
pub mod Calls
mod Tests
