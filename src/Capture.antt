-- ===== src/Capture.antt =====
-- capture/src: the capture device's program.
pub mod Camera
pub mod Ring
pub mod Client
pub mod Main
