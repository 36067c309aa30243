-- ===== src/Stats.antt =====
-- pkg/stats: what is reported of the streams.
pub mod Stream
