-- ===== src/System.antt =====
-- worker/system: what the worker knows of its host, and how it follows a run of ffmpeg.
pub mod Resources
pub mod Hardware
pub mod Progress
