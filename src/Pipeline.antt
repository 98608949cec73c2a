-- ===== src/Pipeline.antt =====
-- The video pipeline: the RTSP reconnect policy.
pub mod Reconnect
