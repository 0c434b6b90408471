-- ===== src/Encoder.antt =====
-- internal/encoder: the H.264 side of the video pipeline.
pub mod Nal
pub mod Stream
