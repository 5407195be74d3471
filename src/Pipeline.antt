-- ===== src/Pipeline.antt =====
-- backend/src/KinesisIngestionPipeline.ts: per port, the GStreamer process and the
-- packets on their way to it.
pub mod Reorder
pub mod Starts
