-- ===== src/Net.antt =====
-- The network library, include/qing/net and src/net.
pub mod Buffer
pub mod Stream
pub mod Client
pub mod Connect
pub mod Run
pub mod RunHistory
pub mod Poller
pub mod Dispatch
pub mod Events
pub mod Interest
pub mod Interests
pub mod Util
pub mod Sizes
pub mod Address
pub mod Listener
pub mod Listening
pub mod Socket
pub mod SocketLaws
pub mod SocketLife
pub mod Server
pub mod Objects
pub mod Targets
pub mod Serving
pub mod Iocp
pub mod Completions
pub mod Linux
mod Tests
mod RunTests
mod InterestTests
mod SocketTests
