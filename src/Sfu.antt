-- ===== src/Sfu.antt =====
pub mod Sequencer
pub mod DownTrack
pub mod Receiver
pub mod Helpers
pub mod Subscriber
pub mod Session
pub mod Router
pub mod AudioObserver
