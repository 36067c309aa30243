-- ===== src/Buffer.antt =====
-- pkg/buffer: what the SFU keeps of one incoming RTP stream.
pub mod Nack
pub mod Bucket
pub mod Vp8
pub mod H264
pub mod Stream
pub mod Factory
