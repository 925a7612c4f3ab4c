-- ===== src/Worker.antt =====
-- worker/main.go: the service that takes commands from the queue and runs ffmpeg.
pub mod Start
pub mod Args
pub mod Placeholders
pub mod FileType
pub mod Request
pub mod Media
pub mod Job
pub mod Handle
