-- ===== src/Nio.antt =====
-- nodebus/nio: the channels, the selector that waits for them, and the thread that serves their peers.
pub mod Stream
pub mod Selector
pub mod PeerAdmin
pub mod Sockets
pub mod Server
pub mod Writing
pub mod Ssl
